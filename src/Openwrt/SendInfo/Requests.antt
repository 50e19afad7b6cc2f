-- ===== src/Openwrt/SendInfo/Requests.antt =====
-- Who owns the answers of ubus, step by step: the requests and the reports.
use tuya_daemon.Base.{
  ℕ, ◌≡◌, refl, inl, inr, Bool, true, false, List, ◌∷◌, String, ℤ, is_zero, is_negative, not,
  if◌then◌else◌, arith, Bool-cases, ==_refl,
}
use tuya_daemon.World.{
  CharPtr, null, block, Field, Event, Sys, Env, done, Cmd, and_then, tell, free, free_block,
}
use tuya_daemon.World.Logic
use tuya_daemon.World.Logic.{
  Returns, ends, View, with_blocks, At, Keeps, is_lifecycle, IsReadable, tell-Keeps, call-Keeps,
  malloc-Keeps, lend-Keeps, free_block-Keeps, free_second-Keeps, touch-Keeps,
}
use tuya_daemon.Openwrt.Ubus.{
  UbusResponse, uninitialised_response, DataCallback, handle_replies, ubus_invoke,
}
use tuya_daemon.Openwrt.SendInfo.{
  succeeded, lookup_ubus_service, report_property_to_tuya, report_answer, read_success,
}
use tuya_daemon.Openwrt.SendInfo.Replies.{
  OneReply, IsLive, owned, IsFormatted, absent, formatted, Answered, refused, accepted, Hands,
}

-- What a request leaves: the answer's text if it succeeded, and nothing if it failed.
pub data Invoked (v : View) : ℤ × UbusResponse → Sys → Type 0 where
  succeeds :
      {ret : ℤ} {resp : UbusResponse} {u : Sys}
      → is_zero ret ≡ true
      → Answered v resp u
      → Invoked v (ret, resp) u
  fails :
      {ret : ℤ} {resp : UbusResponse} {u : Sys}
      → is_zero ret ≡ false
      → At v u
      → Invoked v (ret, resp) u

module _ (env : Env) {v : View} where
  pub Answered-tell :
      {resp : UbusResponse} {u : Sys} (e : Event)
      → is_lifecycle e ≡ false
      → Answered v resp u
      → Returns (λ _ w. Answered v resp w) (tell env e u)
  Answered-tell e silent (refused f k) =
      Logic.mono (tell-Keeps env k e silent) λ _ w k'. refused f k'
  Answered-tell e silent (accepted f k) =
      Logic.mono (tell-Keeps env k e silent) λ _ w k'. accepted f k'

  pub invoke-Invoked :
      OneReply env
      → {t : Sys} (ctx id : ℕ) (m : String) (fs : List Field) (cb : DataCallback) → Hands cb
      → IsLive ctx v.blocks
      → At v t
      → Returns (Invoked v) (ubus_invoke env ctx id m fs cb uninitialised_response t)
  unfolding ubus_invoke handle_replies
  invoke-Invoked one ctx id m fs cb hands live at =
      Logic.bind (touch-Keeps env at ctx live.ne_null live.live) λ _ u k.
        elim (Bool-cases (is_zero (env.ubus_invoke u.history))) [
          | inl ok ↦
              let (b, e) = one.answered u.history ok in
              rw e (
                Logic.bind (Logic.bind (hands v u b _ k) (λ r w a. ends a))
                  λ r w a. Logic.bind (Answered-tell _ refl a) λ _ x a'. ends (succeeds ok a'))
          | inr no_reply ↦
              rw (one.unanswered u.history no_reply)
                (Logic.bind (tell-Keeps env k _ refl) λ _ x k'. ends (fails no_reply k'))
        ]

  pub lookup-Keeps :
      {t : Sys} (ctx : ℕ) (name : String)
      → IsLive ctx v.blocks
      → At v t
      → Returns (Keeps v) (lookup_ubus_service env ctx name t)
  unfolding lookup_ubus_service
  lookup-Keeps ctx name live at =
      Logic.bind (touch-Keeps env at ctx live.ne_null live.live) λ _ u k.
        Logic.bind (call-Keeps env k env.ubus_lookup_id _ (λ _. refl)) λ ret w (k', _).
          elim (Bool-cases (is_zero ret)) [
            | inl ok ↦ rw ok (ends k')
            | inr bad ↦ rw bad (Logic.bind (tell-Keeps env k' _ refl) λ _ x k''. ends k'')
          ]

  pub report-Keeps :
      {t : Sys} (p : CharPtr)
      → IsReadable v.blocks p
      → At v t
      → Returns (Keeps v) (report_property_to_tuya env p t)
  unfolding report_property_to_tuya
  report-Keeps p readable at = Logic.bind (lend-Keeps env at p readable) λ _ u k.
      Logic.bind (call-Keeps env k env.property_report _ (λ _. refl)) λ ret w (k', _).
        elim (Bool-cases (is_negative ret)) [
          | inl bad ↦ rw bad (Logic.bind (tell-Keeps env k' _ refl) λ _ x k''. ends k'')
          | inr ok ↦ rw ok (ends k')
        ]

module _ (env : Env) {v : View} where
  -- The text is reported and then freed, if there is one.
  pub report_answer-Keeps :
      {t : Sys} {json : CharPtr}
      → IsFormatted json
      → At (with_blocks (owned json v.blocks) v) t
      → Returns (Keeps v) (report_answer env (succeeded json) t)
  unfolding report_answer free
  report_answer-Keeps absent at = Logic.bind (report-Keeps env null tt at) λ _ u k. ends k
  report_answer-Keeps (formatted a x) at =
      Logic.bind (report-Keeps env (block a x) (rw ==_refl) at)
        λ _ u k. Logic.bind (free_block-Keeps env k a v.blocks refl) λ _ w k'. ends k'

  -- The end of a request that has succeeded; `e` is what is logged before the report, if anything.
  pub finish-Keeps :
      {t : Sys} {resp : UbusResponse}
      → Answered v resp t
      → Returns (Keeps v) (
          and_then
            (read_success env resp t)
            (λ good. if not good then done false else report_answer env resp))
  unfolding read_success
  finish-Keeps (refused e at) = rw e (ends at)
  finish-Keeps (accepted f at) = report_answer-Keeps f at

  pub finish_logged-Keeps :
      {t : Sys} {resp : UbusResponse} (e : Event)
      → is_lifecycle e ≡ false
      → Answered v resp t
      → Returns (Keeps v) (
          and_then (read_success env resp t) (λ good.
            if not good
            then done false
            else (λ s. and_then (tell env e s) (λ _. report_answer env resp))))
  unfolding read_success
  finish_logged-Keeps e silent (refused x at) = rw x (ends at)
  finish_logged-Keeps e silent (accepted f at) =
      Logic.bind (tell-Keeps env at e silent) λ _ u k. report_answer-Keeps f k

  -- The end of a request, on both values of its status.
  pub settle-Keeps :
      {t : Sys} (e : Event) (rest : Cmd Bool) (r : ℤ × UbusResponse)
      → is_lifecycle e ≡ false
      → ((u : Sys) → Answered v r.1 u → Returns (Keeps v) (rest u))
      → Invoked v r t
      → Returns (Keeps v) (
          if◌then◌else◌ {A = Cmd Bool}
            (not (is_zero r.0))
            (λ s. and_then (tell env e s) (λ _. done false))
            rest
            t)
  settle-Keeps e rest r silent then_rest (succeeds ok a) = rw ok (then_rest _ a)
  settle-Keeps e rest r silent then_rest (fails bad at) =
      rw bad (Logic.bind (tell-Keeps env at e silent) λ _ u k. ends k)

-- The request's buffer is freed below the answer.
pub release-Invoked :
    (env : Env) (v : View) {t : Sys} (b : ℕ) (r : ℤ × UbusResponse)
    → Invoked (with_blocks (b ∷ v.blocks) v) r t
    → Returns (λ _ u. Invoked v r u) (free_block env b t)
release-Invoked env v b r (fails bad at) =
    Logic.mono (free_block-Keeps env at b v.blocks refl) λ _ u k. fails bad k
release-Invoked env v b r (succeeds ok (refused e at)) =
    Logic.mono (free_block-Keeps env at b v.blocks refl) λ _ u k. succeeds ok (refused e k)
release-Invoked env v b r (succeeds ok (accepted absent at)) =
    Logic.mono (free_block-Keeps env at b v.blocks refl) λ _ u k. succeeds ok (accepted absent k)
release-Invoked env v b r (succeeds ok (accepted (formatted a x) at)) =
    Logic.mono (free_second-Keeps env at a b v.blocks refl)
      λ _ u k. succeeds ok (accepted (formatted a x) k)

pub IsLive-cons : {a b : ℕ} {bs : List ℕ} → IsLive a bs → IsLive a (b ∷ bs)
IsLive-cons live = ground arith

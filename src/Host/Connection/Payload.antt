-- ===== src/Host/Connection/Payload.antt =====
-- tuya_daemon/connection.c: the end of the report of the time, from the check of the length on.
use tuya_daemon.Base.{
  ℕ, suc, ◌+◌, ◌≡◌, refl, Bool-cases, inl, inr, true, false, [], ◌∷◌, ◌++◌, ℤ, pos, is_negative,
  minus_three, length, leb, arith, ap, ◌∙◌, length-append, ◌⊎◌,
}
use tuya_daemon.World.{Bytes, Event, History, Sys, Env, call, done, tell, log_err}
use tuya_daemon.World.Logic
use tuya_daemon.World.Logic.{
  Returns, ends, View, At, is_lifecycle, tell-Keeps, call-Keeps, At-note, history-note, deref-Keeps,
}
use tuya_daemon.Host.Buffer.{zeros, c_string, store, set}
use tuya_daemon.Host.Buffer.Texts.{NoNul, c_string-append, length-zeros, store-append}
use tuya_daemon.Host.Connection.{finish_report}

module _ (env : Env) where
  call-Notes :
      {A : Type 0} {v : View} {t : Sys}
      → At v t
      → (answer : History → A) (event : A → Event) → ((a : A) → is_lifecycle (event a) ≡ false)
      → Returns (λ a u. At v u × (u.history ≡ event a ∷ t.history)) (call env answer event t)
  unfolding call
  call-Notes {t = t} at answer event silent =
      ends (At-note env _ (silent _) at, history-note env _ t)

  tell-Notes :
      {v : View} {t : Sys}
      → At v t
      → (e : Event) → is_lifecycle e ≡ false
      → Returns (λ _ u. At v u × (u.history ≡ e ∷ t.history)) (tell env e t)
  unfolding tell
  tell-Notes {t = t} at e silent = ends (At-note env e silent at, history-note env e t)

  pub finish_report-Sent :
      (s : Bytes) (j used time_length : ℕ) {v : View} (t : Sys)
      → At v t
      → NoNul s
      → used + time_length ≡ length s
      → Returns
          (λ r u.
            At v u
            × (((r ≡ minus_three)
                  × (ret : ℤ) × (is_negative ret ≡ true)
                  × (u.history
                      ≡ Event.syslog log_err "Failed to send current time: %s"
                        ∷ Event.property_report_with_ack (s ++ (b'"' ∷ b'}' ∷ [])) ret
                        ∷ t.history))
                ⊎ ((r ≡ pos 0)
                    × (ret : ℤ) × (is_negative ret ≡ false)
                    × (u.history
                        ≡ Event.property_report_with_ack (s ++ (b'"' ∷ b'}' ∷ [])) ret
                          ∷ t.history))))
          (finish_report env (s ++ zeros (suc (suc (suc j)))) used time_length t)
  unfolding finish_report c_string
  finish_report-Sent s j used time_length t at clean e =
      let room : leb (length (s ++ zeros (suc (suc (suc j))))) (used + time_length + 2) ≡ false =
        rw (length-append, length-zeros, e) (ground arith) in
      let r0 = zeros (suc (suc (suc j))) in
      let first : store (s ++ r0) (length s) b'"' t ≡ done (s ++ set r0 0 b'"') t =
        ap (λ (k : ℕ). store (s ++ r0) k b'"' t) (omega arith)
        ∙ store-append s r0 0 b'"' t (ground arith) in
      let r1 = set r0 0 b'"' in
      let second = store-append s r1 1 b'}' t (ground arith) in
      let r2 = set r1 1 b'}' in
      let third = store-append s r2 2 0 t (ground arith) in
      rw (room, e, first, second, third)
        (Logic.bind (call-Notes at env.property_report_with_ack _ (λ _. refl)) λ ret u (k, h).
          elim (Bool-cases (is_negative ret)) [
            | inl bad ↦ rw bad (
                Logic.bind (tell-Notes k _ refl) λ _ u2 (k2, h2). ends (
                  k2,
                  inl (
                    refl,
                    ret,
                    bad,
                    h2
                        ∙ ap
                            (λ (x : History).
                              Event.syslog log_err "Failed to send current time: %s" ∷ x)
                            (h ∙ text ret),
                  ),
                ))
            | inr good ↦ rw good (ends (k, inr (refl, ret, good, h ∙ text ret)))
          ])
    where
      text :
          (ret : ℤ)
          → Event.property_report_with_ack (c_string (s ++ (b'"' ∷ b'}' ∷ 0 ∷ zeros j))) ret
              ∷ t.history
            ≡ Event.property_report_with_ack (s ++ (b'"' ∷ b'}' ∷ [])) ret ∷ t.history
      text ret =
          ap (λ (x : Bytes). Event.property_report_with_ack x ret ∷ t.history)
            (c_string-append s _ clean)

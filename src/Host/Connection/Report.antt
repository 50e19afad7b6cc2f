-- ===== src/Host/Connection/Report.antt =====
-- tuya_daemon/connection.c: the report of the time, byte by byte.
use mathlib.Core.List.{append_assoc}
use tuya_daemon.Base.{
  ℕ, suc, ◌+◌, ◌<◌, ◌≡◌, refl, Bool-cases, inl, inr, true, false, List, [], ◌∷◌, ◌++◌, String, ℤ,
  pos, negsuc, is_negative, minus_one, minus_two, minus_three, length, ◌==◌, leb, ltb, arith, ap,
  ◌∙◌, member, length-append, ◌-◌, none, some, sym,
}
use tuya_daemon.World.{
  Bytes, CharPtr, literal, block, Event, History, Sys, Env, deref, done, pure, Cmd, log_err,
}
use tuya_daemon.World.Logic
use tuya_daemon.World.Logic.{
  Returns, ends, View, At, is_lifecycle, tell-Keeps, call-Keeps, At-note, history-note, deref-Keeps,
}
use tuya_daemon.Host.Buffer.{zeros, c_string, strlen, store_all}
use tuya_daemon.Host.Buffer.Texts.{NoNul, NoNul-append, length-zeros, store_all-zeros}
use tuya_daemon.Host.Connection.{
  time_prefix, given_length, get_time_string, finish_report, send_current_time,
}
use tuya_daemon.Host.Connection.Payload.{finish_report-Sent}

-- What the code relies on: `strftime` stores less than it has room for, and no NUL.
pub record Clock (env : Env) : Type 0 where
  pub fits : (h : History) (n : ℕ) (format : String) → 0 < n → length (env.strftime h n format) < n
  pub no_nul : (h : History) (n : ℕ) (format : String) → NoNul (env.strftime h n format)

-- A format that can be read, with its text.
pub data IsText (bs : List ℕ) : CharPtr → String → Type 0 where
  static : (text : String) → IsText bs (literal text) text
  owned : (a : ℕ) (text : String) → member a bs ≡ true → IsText bs (block a text) text

-- What `get_time_string` makes of a buffer with `n` zeros behind `s`.
data TimeText (env : Env) (text : String) (s : Bytes) (n : ℕ) : ℤ → Bytes → Type 0 where
  no_text : (k : ℕ) {buf : Bytes} → TimeText env text s n (negsuc k) buf
  written :
      (h : History) (k : ℕ) {w : Bytes}
      → w ≡ env.strftime h n text
      → length w + 1 + k ≡ n
      → TimeText env text s n (pos (length w)) (s ++ ((w ++ (0 ∷ [])) ++ zeros k))

-- The report of a text as the time, and the answer of the library.
abbrev pub report_event : Bytes → ℤ → Event
report_event w ret = Event.property_report_with_ack (time_prefix ++ (w ++ (b'"' ∷ b'}' ∷ []))) ret

-- How `send_current_time` ends, and the report that it has sent.
pub data Sent (env : Env) (text : String) : ℤ → Sys → Type 0 where
  no_time : {u : Sys} → Sent env text minus_one u
  too_long :
      (h : History) {u : Sys} → 188 < length (env.strftime h 191 text) → Sent env text minus_two u
  rejected :
      (h h' : History) (ret : ℤ) {u : Sys}
      → is_negative ret ≡ true
      → u.history
        ≡ Event.syslog log_err "Failed to send current time: %s"
          ∷ report_event (env.strftime h 191 text) ret
          ∷ h'
      → Sent env text minus_three u
  accepted :
      (h h' : History) (ret : ℤ) {u : Sys}
      → is_negative ret ≡ false
      → u.history ≡ report_event (env.strftime h 191 text) ret ∷ h'
      → Sent env text (pos 0) u

module _ (env : Env) (clock : Clock env) {v : View} where
  get_time_string-TimeText :
      (s : Bytes) (n : ℕ) (format : CharPtr) {text : String} (t : Sys)
      → 0 < n
      → At v t
      → IsText v.blocks format text
      → Returns
          (λ r u. At v u × TimeText env text s n r.0 r.1)
          (get_time_string env (s ++ zeros n) (length s) n format t)
  unfolding get_time_string
  get_time_string-TimeText s n format t room at legible =
      Logic.bind (call-Keeps env at env.time Event.time (λ _. refl)) λ known u (k, _).
        elim (Bool-cases known) [
          | inr e ↦ rw e (Logic.bind (tell-Keeps env k _ refl) λ _ u1 k1. ends (k1, no_text 0))
          | inl e ↦ rw e (
              Logic.bind (call-Keeps env k env.localtime Event.localtime (λ _. refl))
                λ local u1 (k1, _). elim (Bool-cases local) [
                  | inr e1 ↦
                      rw e1 (Logic.bind (tell-Keeps env k1 _ refl) λ _ u2 k2. ends (k2, no_text 1))
                  | inl e1 ↦ rw e1 (
                      Logic.bind (text-Keeps legible k1) λ text u2 (k2, e2). rw e2 (
                        Logic.bind (call-Keeps env k2 (λ h. env.strftime h n _) _ (λ _. refl))
                          λ w u3 (k3, e3). elim (Bool-cases (length w == 0)) [
                            | inl empty ↦ rw empty (
                                Logic.bind (tell-Keeps env k3 _ refl)
                                  λ _ u4 k4. ends (k4, no_text 2))
                            | inr filled ↦ rw filled (
                                let short : length w < n = rw e3 (clock.fits u2.history n _ room) in
                                let spare = n - (length w + 1) in
                                let size : n ≡ length (w ++ (0 ∷ [])) + spare =
                                  rw length-append (omega arith) in
                                let stored : store_all (s ++ zeros n) (length s) (w ++ (0 ∷ [])) u3
                                    ≡ done (s ++ ((w ++ (0 ∷ [])) ++ zeros spare)) u3 =
                                  ap
                                    (λ (m : ℕ).
                                      store_all (s ++ zeros m) (length s) (w ++ (0 ∷ [])) u3)
                                    size
                                  ∙ store_all-zeros s (w ++ (0 ∷ [])) spare u3 in
                                rw stored (ends (k3, written u2.history spare e3 (omega arith))))
                          ]))
                ])
        ]
    where
      text-Keeps :
          {p : CharPtr} {text : String} {t : Sys}
          → IsText v.blocks p text
          → At v t
          → Returns (λ r u. At v u × (r ≡ text)) (deref env p t)
      text-Keeps (static text) at = unfold deref in ends (at, refl)
      text-Keeps (owned a text h) at = deref-Keeps env at a text h

  -- If `strftime` stores less than it has room for and no NUL, and the format of the time can be
  -- read, then `send_current_time` returns without undefined behaviour, in particular with no write
  -- outside its 200 bytes, and changes no block; if it returns 0, then its last call was the report
  -- of exactly {"time":"T"}, where T is the text that `strftime` has made of that format, and the
  -- library did not refuse it; it returns -3 only if the library has refused this report, which is
  -- then logged, -2 only if T has more than 188 bytes, and otherwise -1.
  pub send_current_time-Sent :
      (text : String) (t : Sys)
      → At v t
      → IsText v.blocks t.date_time_format text
      → Returns (λ r u. At v u × Sent env text r u) (send_current_time env t)
  unfolding send_current_time strlen c_string
  send_current_time-Sent text t at legible =
      Logic.bind
        (get_time_string-TimeText time_prefix 191 t.date_time_format t (omega arith) at legible)
        λ (r, buf) u (k, wrote). report r buf u k wrote
    where
      clean : {h : History} {w : Bytes} → w ≡ env.strftime h 191 text → NoNul (time_prefix ++ w)
      clean {h} {w} e =
          NoNul-append time_prefix w
            (refl, (refl, (refl, (refl, (refl, (refl, (refl, (refl, (refl, tt)))))))))
            (rw e (clock.no_nul h 191 text))

      report :
          (r : ℤ) (buf : Bytes) (u : Sys)
          → At v u
          → TimeText env text time_prefix 191 r buf
          → Returns
              (λ r u. At v u × Sent env text r u)
              (let rest : Cmd ℤ = elim (given_length r) [
                | none ↦ pure minus_one
                | some time_length ↦ finish_report env buf 9 time_length
              ] in
                rest u)
      report _ _ u k (no_text n) = ends (k, no_time)
      report _ _ u k (written h spare {w} e size) = elim (Bool-cases (ltb (length w) 189)) [
        | inr long ↦
            let much : leb (length (time_prefix ++ ((w ++ (0 ∷ [])) ++ zeros spare)))
                  (9 + length w + 2)
                ≡ true =
              rw
                (
                  length-append time_prefix,
                  length-append (w ++ (0 ∷ [])),
                  length-append w,
                  length-zeros,
                )
                (ground arith) in
            unfold finish_report in
            rw much (
              Logic.bind (tell-Keeps env k _ refl)
                λ _ u1 k1. ends (k1, too_long h (rw (sym e) (ground arith))))
        | inl short ↦
            let j = spare - 2 in
            let tail : spare ≡ suc (suc j) = ground arith in
            let buffer : time_prefix ++ ((w ++ (0 ∷ [])) ++ zeros spare)
                ≡ (time_prefix ++ w) ++ zeros (suc (suc (suc j))) =
              ap (λ (x : Bytes). time_prefix ++ x)
                (append_assoc w (0 ∷ []) (zeros spare) ∙ ap (λ (m : ℕ). w ++ (0 ∷ zeros m)) tail) in
            rw buffer (
              Logic.mono
                (finish_report-Sent env (time_prefix ++ w) j 9 (length w) u k (clean e)
                  (omega arith))
                λ r u1 (k1, s). (
                  k1,
                  elim s [
                    | inl (e1, ret, bad, hist) ↦ rw e1 (
                        rejected h _ ret bad (
                          hist
                          ∙ ap
                              (λ (x : Bytes).
                                Event.syslog log_err "Failed to send current time: %s"
                                ∷ report_event x ret
                                ∷ u.history)
                              e))
                    | inr (e1, ret, good, hist) ↦ rw e1 (
                        accepted h _ ret good
                          (hist ∙ ap (λ (x : Bytes). report_event x ret ∷ u.history) e))
                  ],
                ))
      ]

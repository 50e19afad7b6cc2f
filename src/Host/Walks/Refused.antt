-- ===== src/Host/Walks/Refused.antt =====
-- tuya_daemon/connection.c: a report of the time that has failed has not been accepted.
use tuya_daemon.Base.{
  ℕ, ◌+◌, ◌≡◌, refl, true, not, is_zero, is_negative, leb, length, Option-cases, inl, inr,
}
use tuya_daemon.World.{Bytes, Event, Env, Sys, call}
use tuya_daemon.World.Logic.{unsent}
use tuya_daemon.World.Steps.Refused.{
  Unaccepted, Refused, returned, Walk-Refused, bind-Refused, if-Refused, note-unsent,
}
use tuya_daemon.Host.Connection.{given_length, finish_report, send_current_time}
use tuya_daemon.Host.Walks.{Local, time_string-Walk, store-Walk, logged}

unaccepted : (e : Event) → Local e → Unaccepted e
unaccepted (Event.property_report p ret) h = absurd h
unaccepted (Event.property_report_with_ack t ret) h = absurd h
unaccepted _ h = refl

module _ (env : Env) where
  finish_report-Refused :
      (buf : Bytes) (used n : ℕ) (s : Sys)
      → unsent s.history ≡ true
      → Refused (λ r. not (is_zero r)) (finish_report env buf used n s)
  unfolding finish_report call
  finish_report-Refused buf used n s k =
      if-Refused _ (leb (length buf) (used + n + 2)) _ _
        (λ _. Walk-Refused _ k (logged unaccepted _ _ _))
        (λ _. bind-Refused {env = env} _ k (store-Walk unaccepted buf _ _) λ buf1 u k1.
          bind-Refused {env = env} _ k1 (store-Walk unaccepted buf1 _ _) λ buf2 v k2.
            bind-Refused {env = env} _ k2 (store-Walk unaccepted buf2 _ _) λ buf3 w k3.
              if-Refused _ (is_negative (env.property_report_with_ack w.history)) _ _
                (λ bad.
                  Walk-Refused _ (note-unsent env _ w (rw bad refl) k3) (logged unaccepted _ _ _))
                (λ _. returned λ bad. absurd (cc)))

  -- If `send_current_time` fails, the library has not accepted a report.
  pub send_current_time-Refused :
      (s : Sys) → unsent s.history ≡ true → Refused (λ r. not (is_zero r)) (send_current_time env s)
  unfolding send_current_time
  send_current_time-Refused s k =
      bind-Refused _ k (time_string-Walk unaccepted _ _ _ s.date_time_format) λ r u k1.
        elim (Option-cases (given_length r.0)) [
          | inl e ↦ rw e (returned λ _. k1)
          | inr (n, e) ↦ rw e (finish_report-Refused r.1 _ n u k1)
        ]

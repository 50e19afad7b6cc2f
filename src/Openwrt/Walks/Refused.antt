-- ===== src/Openwrt/Walks/Refused.antt =====
-- openwrt/tuya_daemon/src/send_info.c: a report of the memory that has failed has not been accepted.
use tuya_daemon.Base.{◌≡◌, refl, ℕ, true, not, is_zero, is_negative, inl, inr, Option-cases}
use tuya_daemon.World.{CharPtr, Event, Env, Sys, call, free}
use tuya_daemon.World.Logic.{unsent}
use tuya_daemon.World.Steps.{lend-Walk, free-Walk}
use tuya_daemon.World.Steps.Refused.{
  Unaccepted, Refused, returned, Walk-Refused, bind-Refused, after-Refused, if-Refused, note-unsent,
}
use tuya_daemon.Openwrt.Ubus.{UbusResponse}
use tuya_daemon.Openwrt.SendInfo.{report_property_to_tuya, report_answer, send_memory_info}
use tuya_daemon.Openwrt.Walks.{
  Ordinary, logged, lookup-Walk, invoke-Walk, mem_data-Walk, read_success-Walk,
}

unaccepted : (e : Event) → Ordinary e → Unaccepted e
unaccepted (Event.property_report p ret) h = absurd h
unaccepted (Event.property_report_with_ack t ret) h = absurd h
unaccepted _ h = refl

module _ (env : Env) where
  report_text-Refused :
      (p : CharPtr) (s : Sys)
      → unsent s.history ≡ true
      → Refused not (report_property_to_tuya env p s)
  unfolding report_property_to_tuya call
  report_text-Refused p s k = bind-Refused _ k (lend-Walk p) λ _ u k1.
      if-Refused _ (is_negative (env.property_report u.history)) _ _
        (λ bad. Walk-Refused _ (note-unsent env _ u (rw bad refl) k1) (logged unaccepted _ _ _))
        (λ _. returned λ bad. absurd (cc))

  report_answer-Refused :
      (resp : UbusResponse) (s : Sys)
      → unsent s.history ≡ true
      → Refused not (report_answer env resp s)
  unfolding report_answer
  report_answer-Refused resp s k =
      after-Refused not (λ _. free env resp.data_json) (report_text-Refused resp.data_json s k)
        λ _ u. free-Walk resp.data_json

  -- If `send_memory_info` fails, the library has not accepted a report.
  pub send_memory_info-Refused :
      (c : ℕ) (s : Sys) → unsent s.history ≡ true → Refused not (send_memory_info env c s)
  unfolding send_memory_info
  send_memory_info-Refused c s k =
      bind-Refused _ k (lookup-Walk unaccepted c "system") λ found u k1. elim (Option-cases found) [
        | inl e ↦ rw e (returned λ _. k1)
        | inr (id, e) ↦ rw e (
            bind-Refused _ k1
              (invoke-Walk unaccepted c id _ _ _ _ (mem_data-Walk unaccepted) (λ _. refl))
              λ a v k2.
                if-Refused _ (not (is_zero a.0)) _ _
                  (λ _. Walk-Refused _ k2 (logged unaccepted _ _ _))
                  (λ _. bind-Refused _ k2 (read_success-Walk unaccepted a.1) λ good w k3.
                    if-Refused _ (not good) _ _ (λ _. returned λ _. k3)
                      (λ _. report_answer-Refused a.1 w k3)))
      ]

-- ===== src/Tests/Runs.antt =====
-- The theorems on the whole life of a daemon, at concrete environments and states.
use tuya_daemon.Base.{◌≤◌, refl, [], ◌∷◌, arith}
use tuya_daemon.World.Logic.{Ends, Returns, lifecycle}
use tuya_daemon.Host.Main
use tuya_daemon.Host.Main.{no_args}
use tuya_daemon.Host.Args.{argp_ok, parse_opt}
use tuya_daemon.Samples.{calm}
use tuya_daemon.Samples.Pc.{given, calm-Clock, calm-ValidJson, starting}
use tuya_daemon.Samples.Endings.{
  signalled, signalled-Arrives, parsing, parting, parting-Arrives, parting-Farewell,
  parting-Services, parting-StaysUp, signalled-Clock, signalled-ValidJson, starting-unused,
}
use tuya_daemon.Openwrt.Main.{main}
use tuya_daemon.World.Steps.{final}
use tuya_daemon.World.Steps.Invariants.{Adds}
use tuya_daemon.World.Steps.Finish.{Finishes}
use tuya_daemon.Openwrt.Walks.Moments.Daemon.{MayInvoke, main-MayInvoke}
use tuya_daemon.Openwrt.Walks.Stops.{main_signalled-Finishes}
use tuya_daemon.Host.Walks.Run.{IsPermitted, asked_daemon, main-IsPermitted}
use tuya_daemon.Host.Walks.Stops.{main-Finishes}
use tuya_daemon.Openwrt.Main.Whole
use tuya_daemon.Openwrt.Main.Whole.{main-Ended, main_signalled-Ended}
use tuya_daemon.Host.Main.Whole.{main-Returns}
use tuya_daemon.World.Steps.Prompt.{late, sleeping, looping}
use tuya_daemon.Openwrt.Walks.Prompt.Daemon.{main-Prompt}
use tuya_daemon.Host.Walks.Prompt.Daemon.{main_argp-Prompt}
use tuya_daemon.World.Protocol.{Obeys, phase_of}
use tuya_daemon.Openwrt.Walks.Ordered.Daemon.{HasEnded, main-Obeys}
use tuya_daemon.Host.Walks.Ordered.Daemon
use tuya_daemon.Host.Walks.Ordered.Daemon.{main_argp-Obeys}
use tuya_daemon.Openwrt.Main.Starts.{Starts, main-Starts}
use tuya_daemon.Host.Main.Lives.{Lives, main-Lives}
use tuya_daemon.Samples.Endings.{calm-Settings, sevens, asking}

main-MayInvoke_example :
    Adds
      (MayInvoke calm starting.history (final (main calm 3 starting)).history)
      starting.history
      (final (main calm 3 starting)).history
main-MayInvoke_example = main-MayInvoke calm 3 starting

main_signalled-Finishes_example : Finishes (main signalled 31 starting)
main_signalled-Finishes_example =
    main_signalled-Finishes signalled-Arrives 30 starting (omega arith) (omega arith)

main-IsPermitted_example :
    Adds
      (IsPermitted (asked_daemon parsing))
      starting.history
      (final (Main.main calm parsing 3 starting)).history
main-IsPermitted_example = main-IsPermitted calm parsing 3 starting

main-Finishes_example : Finishes (Main.main signalled parsing 31 starting)
main-Finishes_example =
    main-Finishes signalled-Arrives parsing 30 starting (omega arith) (omega arith)

main-Ended_example :
    Ends (Whole.Ended parting (9 ∷ []) (lifecycle [])) (λ _. Unit) (main parting 5 starting)
main-Ended_example =
    main-Ended parting parting-Services parting-StaysUp parting-Farewell (λ h. refl) 5 starting
      (omega arith) starting-unused

main_signalled-Ended_example :
    Returns (Whole.Ended parting (9 ∷ []) (lifecycle [])) (main parting 31 starting)
main_signalled-Ended_example =
    main_signalled-Ended parting parting-Services parting-StaysUp parting-Farewell (λ h. refl)
      parting-Arrives 30 starting (omega arith) starting-unused (omega arith) (omega arith)

main-Returns_example :
    Returns (Main.Whole.Ended (9 ∷ []) (lifecycle [])) (Main.main signalled parsing 31 starting)
main-Returns_example =
    main-Returns signalled signalled-Clock signalled-ValidJson parsing argp_ok given refl refl
      signalled-Arrives 30 starting "%F %T%z" refl refl (omega arith) (omega arith)

main-Prompt_example : late 30 sleeping (final (main signalled 31 starting)).history ≤ 1
main-Prompt_example = main-Prompt signalled-Arrives sleeping 31 starting (omega arith)

main_argp-Prompt_example :
    late 30 looping (final (Main.main signalled asking 31 starting)).history ≤ 1
main_argp-Prompt_example =
    main_argp-Prompt signalled-Arrives looping asking 31 starting (omega arith)

main-Obeys_example : Obeys HasEnded (main parting 31 starting)
unfolding phase_of
main-Obeys_example = main-Obeys parting 31 starting refl

main_argp-Obeys_example : Obeys Daemon.HasEnded (Main.main signalled asking 31 starting)
unfolding phase_of
main_argp-Obeys_example = main_argp-Obeys signalled asking 31 starting refl

main-Starts_example : Starts calm sevens 5 starting (main calm 5 starting)
main-Starts_example = main-Starts calm calm-Settings 5 starting

main-Lives_example :
    Lives (asking parse_opt no_args) (9 ∷ []) (lifecycle []) (Main.main calm asking 5 starting)
main-Lives_example = main-Lives calm calm-Clock calm-ValidJson asking 5 starting "%F %T%z" refl refl

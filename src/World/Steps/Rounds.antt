-- ===== src/World/Steps/Rounds.antt =====
-- How soon a daemon ends after a signal: what the rounds of a daemon's loops share.
use tuya_daemon.Base.{ℕ, ◌+◌, ◌≤◌, ◌≡◌, Bool, true, ◌&&◌, ◌==◌, arith, String}
use tuya_daemon.World.{Signal, Event, Env, Sys, pure, ◌>>◌, syslog}
use tuya_daemon.World.Steps.Invariants.{Armed, Arrives}
use tuya_daemon.World.Steps.Prompt.{
  Kind, sleeping, connecting, looping, hit, same_kind, late, Prompt, returns, tell-Prompt, bind,
}

-- A round of the retries, and one of the main loop, have at most one call of each kind.
pub retry_round : (k : Kind) → same_kind k sleeping + same_kind k connecting ≤ 1
retry_round sleeping = omega arith
retry_round connecting = omega arith
retry_round looping = omega arith

pub main_round : (k : Kind) → same_kind k looping + same_kind k sleeping ≤ 1
main_round sleeping = omega arith
main_round connecting = omega arith
main_round looping = omega arith

pub still_running : (b : Bool) (n : ℕ) → (b && n == 1) ≡ true → (n == 1) ≡ true
still_running b n h = ground arith

-- The events that are not of the kind.
abbrev pub Other : Kind → Event → Type 0
Other k e = hit k e ≡ 0

pub same-Other : (k : Kind) (e : Event) → Other k e → hit k e ≡ 0
same-Other k e h = h

pub log-Prompt :
    {env : Env} {g : Signal} {moment : ℕ} (signal : Arrives env g moment) (k : Kind) {A : Type 0}
    (n p : ℕ) (t : String) (a : A) (s : Sys)
    → Armed g moment s
    → late moment k s.history ≤ n
    → Prompt g moment k n ((syslog env p t >> pure a) s)
log-Prompt signal k n p t a s armed few =
    bind (omega arith) (tell-Prompt signal n (Event.syslog p t) armed few)
      λ _ u b f. returns b (omega arith)

-- ===== src/RateLimit.antt =====
-- src/common/interceptors/rate-limit.interceptor.ts: the rate limiter of the HTTP server. Times
-- are milliseconds, durations of the configuration seconds.
pub mod Cleanup
pub mod Forgetting
pub mod Window
pub mod Blocking
mod Tests
use whataapp_otp_project.Base.{
  ℕ, ◌+◌, ◌-◌, ◌*◌, ◌/◌, String, Bool, true, false, not, ◌&&◌, ◌||◌, Option, none, some, List, [],
  ◌∷◌, ◌===◌, ltb, leb, ◌==◌, if◌then◌else◌, truthy,
}
use whataapp_otp_project.Base.JsMap
use Prim.Native.String

pub record Config : Type 0 where
  pub points : ℕ
  pub duration : ℕ
  pub block_duration : Option ℕ

pub record Entry : Type 0 where
  pub count : ℕ
  pub reset_time : ℕ
  pub blocked_until : Option ℕ

abbrev pub Store : Type 0
Store = List (String × Entry)

pub record Request : Type 0 where
  pub ip : Option String
  pub sub : Option String

pub data Outcome : Type 0 where
  handled : Outcome
  too_many : ℕ → Outcome

-- `this.config.blockDuration || 300`, after the constructor's default of 300.
unfoldable pub effective_block : Config → ℕ
effective_block c = elim c.block_duration [ none ↦ 300 | some b ↦ if b == 0 then 300 else b ]

abbrev or_default : Option String → String → String
or_default none d = d
or_default (some s) d = if s === "" then d else s

unfoldable pub request_key : Request → String
request_key r =
    let ip = or_default r.ip "127.0.0.1" in
    elim r.sub [
      | none ↦ ip
      | some sub ↦
          if sub === "" then ip else Prim.Native.String.◌++◌ ip (Prim.Native.String.◌++◌ ":" sub)
    ]

abbrev pub cleanup_key : String
cleanup_key = "rateLimitCleanup"

unfoldable pub is_blocked : Entry → ℕ → Bool
is_blocked e now = elim e.blocked_until [ none ↦ false | some b ↦ ltb now b ]

-- Math.ceil((blockedUntil - now) / 1000), for an entry that is blocked.
unfoldable pub retry_after : Entry → ℕ → ℕ
retry_after e now = elim e.blocked_until [ none ↦ 0 | some b ↦ (b - now + 999) / 1000 ]

unfoldable pub fresh_entry : Config → ℕ → Entry
fresh_entry c now = record { count = 0; reset_time = now + c.duration * 1000; blocked_until = none }

abbrev entry_or : Option Entry → Entry → Entry
entry_or none d = d
entry_or (some e) d = e

-- The window is renewed if it has expired, and the request counted.
unfoldable pub counted : Config → ℕ → Entry → Entry
counted c now e =
    if leb e.reset_time now
    then record e { count = 1; reset_time = now + c.duration * 1000 }
    else record e { count = e.count + 1 }

-- The entries that the clean-up leaves: it deletes those past their window and block.
unfoldable pub is_live : ℕ → Entry → Bool
is_live now e =
    not (
      ltb e.reset_time now && elim e.blocked_until [ none ↦ true | some b ↦ (b == 0) || ltb b now ])

unfoldable pub cleanup_store : ℕ → Store → Store
unfolding is_live
cleanup_store now = JsMap.retain (λ k e. is_live now e)

abbrev last_cleanup : Store → ℕ
last_cleanup s = elim (JsMap.get cleanup_key s) [ none ↦ 0 | some e ↦ e.reset_time ]

-- Every ten minutes the old entries go.
unfoldable pub maintain : ℕ → Store → Store
maintain now s =
    if ltb 600000 (now - last_cleanup s)
    then JsMap.set cleanup_key (record { count = 0; reset_time = now; blocked_until = none })
        (cleanup_store now s)
    else s

unfoldable pub intercept_key : Config → String → ℕ → Store → Store × Outcome
intercept_key c key now s =
    let found = entry_or (JsMap.get key s) (fresh_entry c now) in
    let next = counted c now found in
    if is_blocked found now
    then (s, too_many (retry_after found now))
    else if ltb c.points next.count
    then (
      JsMap.set key (record next { blocked_until = some (now + effective_block c * 1000) }) s,
      too_many (effective_block c),
    )
    else (maintain now (JsMap.set key next s), handled)

unfoldable pub intercept : Config → Request → ℕ → Store → Store × Outcome
intercept c r now s = intercept_key c (request_key r) now s

-- A run of the server: requests with their times.
unfoldable pub run : Config → List (Request × ℕ) → Store → Store × List Outcome
run c [] s = (s, [])
run c ((r, now) ∷ rs) s =
    let (s', o) = intercept c r now s in let (s'', os) = run c rs s' in (s'', o ∷ os)

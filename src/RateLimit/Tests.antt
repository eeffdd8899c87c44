-- ===== src/RateLimit/Tests.antt =====
-- Runs of the rate limiter, and its theorems at concrete inputs.
use whataapp_otp_project.Base.{
  ℕ, ◌≤◌, ◌≡◌, refl, ◌≢◌, String, false, none, some, List, [], ◌∷◌, arith, eq_iff,
}
use whataapp_otp_project.Base.JsMap
use whataapp_otp_project.RateLimit.{
  Config, Entry, Store, Request, handled, too_many, request_key, effective_block, is_blocked,
  cleanup_key, counted, fresh_entry, retry_after, is_live, cleanup_store, maintain, intercept_key,
  intercept, run,
}
use whataapp_otp_project.RateLimit.Forgetting.{From, cleanup_unobservable}
use whataapp_otp_project.RateLimit.Window.{admitted, admitted-le-left, admitted-le-points}
use whataapp_otp_project.RateLimit.Blocking.{refusal_honoured, refusal_ends}

limiter : Unit {0}
unfolding run intercept intercept_key request_key counted fresh_entry is_blocked retry_after
    maintain cleanup_store effective_block JsMap.get JsMap.set JsMap.retain is_live
limiter = tt

abbrev config : Config
config = record { points = 2; duration = 60; block_duration = some 120 }

abbrev ask : String → Request
ask ip = record { ip = some ip; sub = none }

abbrev burst : List (Request × ℕ)
burst =
    (ask "a", 1000000)
    ∷ (ask "a", 1001000)
    ∷ (ask "a", 1002000)
    ∷ (ask "b", 1002500)
    ∷ (ask "a", 1100000)
    ∷ (ask "a", 1122001)
    ∷ []

run-burst :
    (run config burst []).1
    ≡ handled ∷ handled ∷ too_many 120 ∷ handled ∷ too_many 22 ∷ handled ∷ []
unfolding limiter
run-burst = refl

key_of_user : request_key (record { ip = none; sub = some "u1" }) ≡ "127.0.0.1:u1"
unfolding limiter
key_of_user = refl

default_block : effective_block (record { points = 1; duration = 1; block_duration = some 0 }) ≡ 300
unfolding limiter
default_block = refl

abbrev entry_a : Entry
entry_a = record { count = 1; reset_time = 2000000; blocked_until = none }

abbrev full_a : Entry
full_a = record { count = 2; reset_time = 2000000; blocked_until = none }

abbrev old_b : Entry
old_b = record { count = 7; reset_time = 500000; blocked_until = some 600000 }

abbrev some_store : Store
some_store = ("a", entry_a) ∷ ("b", old_b) ∷ []

a_other : ◌≢◌ {A = String} "a" cleanup_key
a_other = ground (arith, eq_iff "a" cleanup_key)

b_other : ◌≢◌ {A = String} "b" cleanup_key
b_other = ground (arith, eq_iff "b" cleanup_key)

a-ne-b : ◌≢◌ {A = String} "a" "b"
a-ne-b = ground (arith, eq_iff "a" "b")

admitted-le-left_example : admitted config "a" burst some_store ≤ 1
unfolding JsMap.get
admitted-le-left_example =
    admitted-le-left config "a" burst some_store entry_a a_other (refl, (refl, tt)) refl
      (omega arith)

abbrev early : List (Request × ℕ)
early = (ask "a", 1001000) ∷ (ask "b", 1002000) ∷ (ask "a", 1059999) ∷ []

admitted-le-points_example : admitted config "a" ((ask "a", 1000000) ∷ early) [] ≤ 2
unfolding limiter
admitted-le-points_example =
    admitted-le-points config "a" (ask "a") 1000000 early [] a_other tt refl refl (omega arith)
      (omega arith)

abbrev calls : List (Request × ℕ)
calls = (ask "b", 900000) ∷ (ask "b", 901000) ∷ (ask "a", 902000) ∷ (ask "b", 903000) ∷ []

calls-From : From 800000 calls
unfolding limiter
calls-From = (
  omega arith,
  b_other,
  (omega arith, b_other, (omega arith, a_other, (omega arith, b_other, tt))),
)

cleanup_unobservable_example :
    (run config calls (cleanup_store 800000 some_store)).1 ≡ (run config calls some_store).1
unfolding JsMap.get
cleanup_unobservable_example =
    cleanup_unobservable config 800000 calls some_store (refl, (refl, tt)) calls-From

abbrev full_store : Store
full_store = ("a", full_a) ∷ []

refusal_honoured_example :
    admitted config "a"
      ((ask "a", 1050000) ∷ (ask "b", 1060000) ∷ (ask "a", 1119000) ∷ [])
      (intercept_key config "a" 1000000 full_store).0
    ≡ 0
unfolding limiter
refusal_honoured_example =
    refusal_honoured config "a" 1000000 120 full_store
      ((ask "a", 1050000) ∷ (ask "b", 1060000) ∷ (ask "a", 1119000) ∷ []) (refl, tt) a_other refl
      (omega arith)

refusal_ends_example :
    is_blocked (record { count = 3; reset_time = 2000000; blocked_until = some 1120000 }) 1120000
    ≡ false
unfolding limiter
refusal_ends_example =
    refusal_ends config "a" 1000000 120 full_store
      (record { count = 3; reset_time = 2000000; blocked_until = some 1120000 }) refl refl

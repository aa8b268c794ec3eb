-- ===== src/Application/Store/Lock.antt =====
-- The lock of the terminal: the worker that holds it, if any
-- (packages/infrastructure/src/purchase/in-memory-terminal-execution-lock.ts).
use gambling.Base.{
  ◌≡◌, ◌≢◌, refl, String, Bool, true, false, Option, none, some, List, [], ◌∷◌, ◌==◌, trim, Result,
  ok, err, plain, if◌then◌else◌, arith, ◌>>=◌, eq_iff, Bool-cases, sym, inl, inr,
}
use gambling.Base.Platform.{require_text}

abbrev pub Lock : Type 0
Lock = Option String

-- `normalizeOwnerId`
abbrev pub normalize_owner_id : String → Result String
normalize_owner_id owner_id = require_text plain owner_id "ownerId"

-- `acquire` with a normalized owner
abbrev acquire_as : Lock → String → Bool × Lock
acquire_as none owner = (true, some owner)
acquire_as (some holder) owner = (holder == owner, some holder)

unfoldable pub acquire : Lock → String → Result (Bool × Lock)
acquire lock owner_id = do owner ← normalize_owner_id owner_id; ok (acquire_as lock owner)

-- `release` with a normalized owner
abbrev release_as : Lock → String → Lock
release_as none owner = none
release_as (some holder) owner = if holder == owner then none else some holder

unfoldable pub release : Lock → String → Result Lock
release lock owner_id = do owner ← normalize_owner_id owner_id; ok (release_as lock owner)

unfoldable pub clear_all : Lock → Lock
clear_all lock = none

-- a call of a worker on the lock
pub data LockCall : Type 0 where
  acquiring releasing : String → LockCall

-- the lock after a call; a call that throws leaves it as it was
abbrev kept : Lock → Result Lock → Lock
kept lock (ok next) = next
kept lock (err e) = lock

abbrev taken : Lock → Result (Bool × Lock) → Lock
taken lock (ok (granted, next)) = next
taken lock (err e) = lock

unfoldable pub apply_lock_call : LockCall → Lock → Lock
apply_lock_call (acquiring worker) lock = taken lock (acquire lock worker)
apply_lock_call (releasing worker) lock = kept lock (release lock worker)

abbrev pub caller : LockCall → String
caller (acquiring worker) = worker
caller (releasing worker) = worker

-- The calls are those of other workers than the holder.
abbrev pub AreOthers : String → List LockCall → Type 0
AreOthers holder [] = Unit
AreOthers holder (call ∷ calls) = (trim (caller call) ≢ holder) × AreOthers holder calls

abbrev pub run : List LockCall → Lock → Lock
run [] lock = lock
run (call ∷ calls) lock = run calls (apply_lock_call call lock)

holder_differs : (holder owner : String) → owner ≢ holder → (holder == owner) ≡ false
holder_differs holder owner other = elim (Bool-cases (holder == owner)) [
  | inl e ↦ absurd (other (sym ((eq_iff holder owner).0 e)))
  | inr e ↦ e
]

other_keeps :
    (call : LockCall) (holder : String)
    → trim (caller call) ≢ holder
    → apply_lock_call call (some holder) ≡ some holder
unfolding apply_lock_call acquire release require_text
other_keeps (acquiring worker) holder other = ground arith
other_keeps (releasing worker) holder other =
    let differs = holder_differs holder (trim worker) other in ground (arith, differs)

run_keeps :
    (calls : List LockCall) (holder : String)
    → AreOthers holder calls
    → run calls (some holder) ≡ some holder
run_keeps [] holder others = refl
run_keeps (call ∷ calls) holder others =
    rw (other_keeps call holder others.0) (run_keeps calls holder others.1)

refused :
    (holder worker owner : String)
    → normalize_owner_id worker ≡ ok owner
    → owner ≢ holder
    → acquire (some holder) worker ≡ ok (false, some holder)
unfolding acquire
refused holder worker owner named different = rw (named, holder_differs holder owner different) refl

-- Whatever the other workers call, in any order, the holder keeps the lock, and an acquisition by one
-- of them is refused.
pub held-excludes :
    (calls : List LockCall) (holder worker owner : String)
    → AreOthers holder calls
    → normalize_owner_id worker ≡ ok owner
    → owner ≢ holder
    → (run calls (some holder) ≡ some holder)
      × (acquire (run calls (some holder)) worker ≡ ok (false, some holder))
held-excludes calls holder worker owner others named different =
    let same = run_keeps calls holder others in
    (same, rw same (refused holder worker owner named different))

-- ===== src/Examples/Trials.antt =====
-- The trials of the challenges at small sizes.
use hotpathcplusplus.Base.{
  ◌⊎◌, ◌<◌, Option, ℕ, suc, zero, ◌≡◌, refl, true, false, List, [], ◌∷◌, update, none, some, mul64,
  count, arith,
}
use mathlib.Core.List.{Perm}
use mathlib.Core.List.Perm
use hotpathcplusplus.Seqlock.Trial as Cache
use hotpathcplusplus.Seqlock.TearFree.{torn_detected_lem}
use hotpathcplusplus.Locks.Spin
use hotpathcplusplus.Locks.Machine.{LockMachine, releases, spin_lock, spin_label, spin_lock-IsLock}
use hotpathcplusplus.Locks.Trial as Lock
use hotpathcplusplus.Locks.Live.{spin_lock-IsLive}
use hotpathcplusplus.Locks.Tally.{IsRight}
use hotpathcplusplus.Locks.Outcome.{trial_lem}
use hotpathcplusplus.Mesi.Ledger.{new_state, apply_transfer}
use hotpathcplusplus.Mesi.ShardedTrial.{
  IsComplete, sharded_map_trial, sharded_map_ok, sharded_map_trial_lem,
}
use hotpathcplusplus.Events.Layouts.{
  pointer_array_exposure, vector_exposure, book_exposure, exposures_agree,
}

-- two threads that do two rounds each
abbrev schedule : List ℕ
schedule = 0 ∷ 1 ∷ 1 ∷ 0 ∷ []

schedule-IsComplete : IsComplete 2 2 schedule
schedule-IsComplete = record { all_rounds = all_rounds; no_other = λ tid le. ground arith }
  where
    all_rounds : (tid : ℕ) → tid < 2 → count tid schedule ≡ 2
    all_rounds tid lt = ground arith

sharded_map_trial_lem_example :
    (sharded_map_trial schedule ≡ mul64 2 2) × (sharded_map_ok 2 2 schedule ≡ true)
sharded_map_trial_lem_example = sharded_map_trial_lem 2 2 schedule schedule-IsComplete

-- a shuffle that moves the first element to the end
abbrev turn : List ℕ → List ℕ
turn [] = []
turn (x ∷ []) = x ∷ []
turn (x ∷ y ∷ xs) = y ∷ turn (x ∷ xs)

turn-perm : (xs : List ℕ) → Perm (turn xs) xs
turn-perm [] = Perm.refl []
turn-perm (x ∷ []) = Perm.refl (x ∷ [])
turn-perm (x ∷ y ∷ xs) = Perm.trans (Perm.cons y (turn-perm (x ∷ xs))) (Perm.swap x y xs)

exposures_agree_example :
    (pointer_array_exposure turn 40 ≡ vector_exposure 40) × (book_exposure 40 ≡ vector_exposure 40)
exposures_agree_example = exposures_agree turn 40 turn-perm

-- One thread takes a spinlock, does its transfer and gives the lock up.
abbrev one_lock : LockMachine
one_lock = spin_lock Spin.naive_tas_lock

abbrev called : Spin.SpinLock
called = record Spin.clear { pc = update Spin.clear.pc 0 (Spin.first Spin.naive_tas_lock) }

abbrev taken : Spin.SpinLock
taken = record { locked = true; pc = update called.pc 0 Spin.holding }

abbrev released : Spin.SpinLock
released = record { locked = false; pc = update taken.pc 0 Spin.idle }

abbrev inside : Lock.LockTrial one_lock
inside = record (Lock.new_trial one_lock) { lock = taken }

abbrev has_loaded : Lock.LockTrial one_lock
has_loaded = record inside { stage = update inside.stage 0 (Lock.loaded new_state) }

abbrev has_stored : Lock.LockTrial one_lock
has_stored = record has_loaded {
  shared = apply_transfer new_state 1;
  stage = update has_loaded.stage 0 Lock.stored;
}

abbrev finished : Lock.LockTrial one_lock
finished = Lock.after has_stored released (releases 0)

finished-Reach : Lock.Reach one_lock 1 1 finished
unfolding spin_label Spin.first Lock.after
finished-Reach =
    Lock.step
      (Lock.step {t = has_stored}
        (Lock.step {t = has_loaded}
          (Lock.step {t = inside}
            (Lock.step Lock.Reach.start
              (Lock.lock_step called (Spin.Step.lock 0 refl) (omega arith, omega arith, refl)))
            (Lock.lock_step taken (Spin.Step.take 0 refl refl) tt))
          (Lock.load 0 (omega arith) (omega arith) refl refl))
        (Lock.store 0 new_state refl))
      (Lock.lock_step released (Spin.Step.unlock 0 refl) refl)

trial_lem_example :
    ((t : Lock.LockTrial one_lock) × Lock.Step 1 1 finished t)
    ⊎ (Lock.Joined 1 1 finished × IsRight 1 1 finished)
trial_lem_example =
    trial_lem {s = finished} (spin_lock-IsLock Spin.naive_tas_lock)
      (spin_lock-IsLive Spin.naive_tas_lock) finished-Reach

-- One thread reads the cache once: two looks, and the four words copied in between.
abbrev looking : Cache.CacheTrial
looking = record Cache.new_trial { pc = update Cache.new_trial.pc 0 Cache.looking }

abbrev word : ℕ → ℕ
word = Cache.words_of Cache.default_entry

-- the words below `n`, copied one after the other
abbrev copy_below : ℕ → ℕ → Option ℕ
copy_below zero = λ w. none
copy_below (suc n) = update (copy_below n) n (some (word n))

abbrev copied : ℕ → Cache.CacheTrial
copied zero = Cache.look looking 0
copied (suc n) = record (copied n) {
  pc = update (copied n).pc 0 (Cache.copying 0 (copy_below (suc n)));
}

copied-Reach : Cache.Reach 1 1 (copied 4)
unfolding Cache.look
copied-Reach =
    let begun : Cache.Reach 1 1 (copied 0) =
      Cache.step
        (Cache.step Cache.Reach.start
          (Cache.start_read 0 (refl, omega arith, omega arith) (λ e. absurd (omega (arith, e)))))
        (Cache.first_look 0 refl) in
    let first : Cache.Reach 1 1 (copied 1) =
      Cache.step begun (Cache.copy_word 0 0 0 (copy_below 0) refl) in
    let second : Cache.Reach 1 1 (copied 2) =
      Cache.step first (Cache.copy_word 0 0 1 (copy_below 1) refl) in
    let third : Cache.Reach 1 1 (copied 3) =
      Cache.step second (Cache.copy_word 0 0 2 (copy_below 2) refl) in
    Cache.step third (Cache.copy_word 0 0 3 (copy_below 3) refl)

abbrev read_once : Cache.CacheTrial
read_once = Cache.look_again (copied 4) 0 0 word

read_once-Reach : Cache.Reach 1 1 read_once
unfolding Cache.look
read_once-Reach =
    Cache.step copied-Reach (Cache.second_look 0 0 (copy_below 4) word refl (λ w lt. ground arith))

torn_detected_lem_example : read_once.torn_detected ≡ false
torn_detected_lem_example = torn_detected_lem (omega arith) read_once-Reach

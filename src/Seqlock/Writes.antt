-- ===== src/Seqlock/Writes.antt =====
-- The steps of the writers keep what holds throughout RunRouteCacheTrial, and so do all steps.
use hotpathcplusplus.Base.{
  ℕ, ◌+◌, ◌<◌, ◌≡◌, refl, sym, subst, ◌∙◌, none, some, update, add64, u64_mod, ℕ_discrete, arith,
}
use hotpathcplusplus.Seqlock.Trial.{
  words_of, updated_entry, between, updating, storing, unlocking, looking, CacheTrial, Step,
  start_update, store_odd, store_word, store_even, unlock, start_read, first_look, copy_word,
  second_look, IsDue, new_trial,
}
use hotpathcplusplus.Seqlock.Sound.{
  IsSound, Fits, bystander, moved, reader-IsSound, owned, updated_entry-Whole, look-IsSound,
  look_again-IsSound, copy_word-IsSound,
}

-- The steps of the owner of the mutex.
module _ (s : CacheTrial) (t seq0 : ℕ) (next : ℕ → ℕ) (v : IsSound s) where
  store_odd-IsSound :
      s.pc t ≡ updating seq0 next
      → IsSound (record s { seq = add64 seq0 1; pc = update s.pc t (storing seq0 next) })
  store_odd-IsSound e =
      let (own, same, even, room, whole) = subst (Fits s.owner s.seq s.payload t) e (v.fits t) in
      record {
        fits =
            moved (Fits s.owner (add64 seq0 1) s.payload) s.pc t (storing seq0 next)
              (own, omega arith, even, room, whole)
              (λ j d.
                bystander s.owner s.owner s.seq (add64 seq0 1) s.payload s.payload j (s.pc j)
                  (owned own d) (omega arith) (λ q r. absurd (omega arith)) (v.fits j));
        resting = λ q. absurd (cc);
        whole = λ q. absurd (omega arith);
        quiet = v.quiet;
      }

  store_word-IsSound :
      (w : ℕ)
      → s.pc t ≡ storing seq0 next
      → IsSound (record s { payload = update s.payload w (next w) })
  store_word-IsSound w e =
      let (own, odd, even, room, whole) = subst (Fits s.owner s.seq s.payload t) e (v.fits t) in
      record {
        fits = λ j. elim (ℕ_discrete t j) [
          | yes q ↦
              subst (λ k. Fits s.owner s.seq (update s.payload w (next w)) k (s.pc k)) q
                (subst (Fits s.owner s.seq (update s.payload w (next w)) t) (sym e)
                  (own, odd, even, room, whole))
          | no d ↦
              bystander s.owner s.owner s.seq s.seq s.payload (update s.payload w (next w)) j
                (s.pc j) (owned own d) (omega arith) (λ q r. absurd (omega arith)) (v.fits j)
        ];
        resting = v.resting;
        whole = λ q. absurd (omega arith);
        quiet = v.quiet;
      }

  store_even-IsSound :
      s.pc t ≡ storing seq0 next
      → ((w : ℕ) → w < 4 → s.payload w ≡ next w)
      → IsSound (record s { seq = add64 seq0 2; pc = update s.pc t unlocking })
  store_even-IsSound e stored =
      let (own, odd, even, room, whole) = subst (Fits s.owner s.seq s.payload t) e (v.fits t) in
      record {
        fits =
            moved (Fits s.owner (add64 seq0 2) s.payload) s.pc t unlocking (own, omega arith)
              (λ j d.
                bystander s.owner s.owner s.seq (add64 seq0 2) s.payload s.payload j (s.pc j)
                  (owned own d) (omega arith) (λ q r w. refl) (v.fits j));
        resting = λ q. omega arith;
        whole = λ q. omega (arith, stored 1 (omega arith), stored 2 (omega arith), whole);
        quiet = v.quiet;
      }

module _ (s : CacheTrial) (t : ℕ) (v : IsSound s) where
  unlock-IsSound :
      s.pc t ≡ unlocking
      → IsSound (record s {
        owner = none;
        pc = update s.pc t between;
        round = update s.round t (s.round t + 1);
      })
  unlock-IsSound e =
      let (own, even) = subst (Fits s.owner s.seq s.payload t) e (v.fits t) in
      record {
        fits = moved (Fits none s.seq s.payload) s.pc t between tt (λ j d.
            bystander s.owner none s.seq s.seq s.payload s.payload j (s.pc j) (owned own d)
              (omega arith) (λ q r w. refl) (v.fits j));
        resting = λ q. even;
        whole = v.whole;
        quiet = v.quiet;
      }

  start_update-IsSound :
      s.owner ≡ none
      → s.seq + 2 < u64_mod
      → IsSound (record s {
        owner = some t;
        pc = update s.pc t (updating s.seq (words_of (updated_entry t (s.round t))));
      })
  start_update-IsSound free room = record {
    fits =
        moved (Fits (some t) s.seq s.payload) s.pc t
          (updating s.seq (words_of (updated_entry t (s.round t))))
          (refl, refl, v.resting free, room, updated_entry-Whole t (s.round t))
          (λ j d.
            bystander s.owner (some t) s.seq s.seq s.payload s.payload j (s.pc j)
              (λ q. cc (sym free ∙ q)) (omega arith) (λ q r w. refl) (v.fits j));
    resting = λ q. v.resting free;
    whole = v.whole;
    quiet = v.quiet;
  }

pub Step-IsSound :
    {num_threads ops : ℕ} {s u : CacheTrial}
    → Step num_threads ops s u
    → ((t : ℕ) → IsDue num_threads ops s t → s.seq + 2 < u64_mod)
    → IsSound s
    → IsSound u
Step-IsSound {s = s} (start_update t due hundredth free) room v =
    start_update-IsSound s t v free (room t due)
Step-IsSound {s = s} (store_odd t seq0 next e) room v = store_odd-IsSound s t seq0 next v e
Step-IsSound {s = s} (store_word t seq0 w next e) room v = store_word-IsSound s t seq0 next v w e
Step-IsSound {s = s} (store_even t seq0 next e stored) room v =
    store_even-IsSound s t seq0 next v e stored
Step-IsSound {s = s} (unlock t e) room v = unlock-IsSound s t v e
Step-IsSound {s = s} (start_read t due other) room v =
    reader-IsSound s t looking s.round s.torn_detected v.quiet tt v
Step-IsSound {s = s} (first_look t e) room v = look-IsSound s t v
Step-IsSound {s = s} (copy_word t seq1 w copy e) room v = copy_word-IsSound s t seq1 w copy e v
Step-IsSound {s = s} (second_look t seq1 copy snap e all) room v =
    look_again-IsSound s t seq1 copy snap e all v

pub new_trial-IsSound : IsSound new_trial
unfolding words_of
new_trial-IsSound = record {
  fits = λ t. tt;
  resting = λ e. omega arith;
  whole = λ e. omega arith;
  quiet = refl;
}

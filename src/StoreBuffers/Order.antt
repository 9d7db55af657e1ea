-- ===== src/StoreBuffers/Order.antt =====
-- What the litmus test can count: nothing with sequentially consistent stores, and something with
-- relaxed ones.
use hotpathcplusplus.Base.{
  ℕ, zero, suc, ◌+◌, ◌<◌, ◌≤◌, ◌≡◌, refl, sym, ap, ◌∙◌, Bool, true, false, [], ◌∷◌, ◌++◌, subst,
  arith,
}
use hotpathcplusplus.StoreBuffers.Litmus.{
  Var, var_x, var_y, Memory, poke, Buffer, load, Place0, ready0, storing0, loading0, done0, Place1,
  resetting_x, resetting_y, ready1, storing1, loading1, done1, checking, Trial, count_trial, Step,
  reset_x, reset_y, first_barrier, store_x_relaxed, store_y_relaxed, store_x_seq_cst,
  store_y_seq_cst, load_y, load_x, second_barrier, check, flush0, flush1, Reach, start, step,
}

abbrev in_trial0 : Place0 → Bool
in_trial0 ready0 = false
in_trial0 _ = true

abbrev in_trial1 : Place1 → Bool
in_trial1 storing1 = true
in_trial1 loading1 = true
in_trial1 done1 = true
in_trial1 _ = false

-- what the variables hold during a trial
abbrev stored0 : Place0 → ℕ
stored0 loading0 = 1
stored0 done0 = 1
stored0 _ = 0

abbrev stored1 : Place1 → ℕ
stored1 loading1 = 1
stored1 done1 = 1
stored1 _ = 0

-- With sequentially consistent stores the two threads are in a trial together, without buffered
-- stores, and the later of the two loads sees the store of the other thread.
record Ordered (m : Trial) : Type 0 where
  together : in_trial0 m.place0 ≡ in_trial1 m.place1
  drained0 : m.buffer0 ≡ []
  drained1 : in_trial1 m.place1 ≡ true → m.buffer1 ≡ []
  holds_x : in_trial1 m.place1 ≡ true → m.mem.x ≡ stored0 m.place0
  holds_y : in_trial1 m.place1 ≡ true → m.mem.y ≡ stored1 m.place1
  clear_x : (m.place1 ≡ resetting_y) → load m.mem m.buffer1 var_x ≡ 0
  clear_xy : m.place1 ≡ ready1 → (load m.mem m.buffer1 var_x ≡ 0) × (load m.mem m.buffer1 var_y ≡ 0)
  seen : m.place0 ≡ done0 → m.place1 ≡ done1 → 0 < m.r1 + m.r2
  checked : m.place1 ≡ checking → 0 < m.r1 + m.r2
  none_counted : m.reordered_count ≡ 0

-- a load after a store of one's own
load-append_x :
    (mem : Memory) (buffer : Buffer) (a : ℕ) → load mem (buffer ++ (var_x, a) ∷ []) var_x ≡ a
load-append_x mem [] a = refl
load-append_x mem ((w, b) ∷ buffer) a = load-append_x (poke mem w b) buffer a

load-append_y :
    (mem : Memory) (buffer : Buffer) (a : ℕ)
    → (load mem (buffer ++ (var_y, a) ∷ []) var_y ≡ a)
      × (load mem (buffer ++ (var_y, a) ∷ []) var_x ≡ load mem buffer var_x)
load-append_y mem [] a = (refl, refl)
load-append_y mem ((w, b) ∷ buffer) a = load-append_y (poke mem w b) buffer a

-- Each step keeps it.
module _ (m : Trial) (v : Ordered m) where
  reset_x-Ordered :
      m.place1 ≡ resetting_x
      → Ordered (record m { place1 = resetting_y; buffer1 = m.buffer1 ++ (var_x, 0) ∷ [] })
  reset_x-Ordered p = record {
    together = ground (arith, v.together);
    drained0 = v.drained0;
    drained1 = λ h. cc;
    holds_x = λ h. cc;
    holds_y = λ h. cc;
    clear_x = λ h. load-append_x m.mem m.buffer1 0;
    clear_xy = λ h. cc;
    seen = λ h k. cc;
    checked = λ h. cc;
    none_counted = v.none_counted;
  }

  reset_y-Ordered :
      m.place1 ≡ resetting_y
      → Ordered (record m { place1 = ready1; buffer1 = m.buffer1 ++ (var_y, 0) ∷ [] })
  reset_y-Ordered p = record {
    together = ground (arith, v.together);
    drained0 = v.drained0;
    drained1 = λ h. cc;
    holds_x = λ h. cc;
    holds_y = λ h. cc;
    clear_x = λ h. cc;
    clear_xy = λ h. let (a, b) = load-append_y m.mem m.buffer1 0 in (b ∙ v.clear_x p, a);
    seen = λ h k. cc;
    checked = λ h. cc;
    none_counted = v.none_counted;
  }

  first_barrier-Ordered :
      m.place0 ≡ ready0
      → m.place1 ≡ ready1
      → m.buffer1 ≡ []
      → Ordered (record m { place0 = storing0; place1 = storing1 })
  first_barrier-Ordered p q f = record {
    together = refl;
    drained0 = v.drained0;
    drained1 = λ h. f;
    holds_x = λ h. sym (ap (λ b. load m.mem b var_x) f) ∙ (v.clear_xy q).0;
    holds_y = λ h. sym (ap (λ b. load m.mem b var_y) f) ∙ (v.clear_xy q).1;
    clear_x = λ h. cc;
    clear_xy = λ h. cc;
    seen = λ h k. cc;
    checked = λ h. cc;
    none_counted = v.none_counted;
  }

  store_x-Ordered :
      m.place0 ≡ storing0 → Ordered (record m { place0 = loading0; mem = poke m.mem var_x 1 })
  store_x-Ordered p = record {
    together = ground (arith, v.together);
    drained0 = v.drained0;
    drained1 = v.drained1;
    holds_x = λ h. refl;
    holds_y = v.holds_y;
    clear_x = λ h. ground (arith, v.together);
    clear_xy = λ h. ground (arith, v.together);
    seen = λ h k. cc;
    checked = v.checked;
    none_counted = v.none_counted;
  }

  store_y-Ordered :
      m.place1 ≡ storing1 → Ordered (record m { place1 = loading1; mem = poke m.mem var_y 1 })
  store_y-Ordered p = record {
    together = ground (arith, v.together);
    drained0 = v.drained0;
    drained1 = λ h. v.drained1 (ground (arith, p));
    holds_x = λ h. v.holds_x (ground (arith, p));
    holds_y = λ h. refl;
    clear_x = λ h. cc;
    clear_xy = λ h. cc;
    seen = λ h k. cc;
    checked = λ h. cc;
    none_counted = v.none_counted;
  }

  load_y-Ordered :
      m.place0 ≡ loading0 → Ordered (record m { place0 = done0; r1 = load m.mem m.buffer0 var_y })
  load_y-Ordered p = record {
    together = ground (arith, v.together);
    drained0 = v.drained0;
    drained1 = v.drained1;
    holds_x = λ h. ground (arith, v.holds_x h);
    holds_y = v.holds_y;
    clear_x = v.clear_x;
    clear_xy = v.clear_xy;
    seen = λ h k.
        ground (arith, k, v.holds_y (ap in_trial1 k), ap (λ b. load m.mem b var_y) v.drained0);
    checked = λ h. ground (arith, v.together);
    none_counted = v.none_counted;
  }

  load_x-Ordered :
      m.place1 ≡ loading1 → Ordered (record m { place1 = done1; r2 = load m.mem m.buffer1 var_x })
  load_x-Ordered p = record {
    together = ground (arith, v.together);
    drained0 = v.drained0;
    drained1 = λ h. v.drained1 (ap in_trial1 p);
    holds_x = λ h. v.holds_x (ap in_trial1 p);
    holds_y = λ h. ground (arith, v.holds_y (ap in_trial1 p));
    clear_x = λ h. cc;
    clear_xy = λ h. cc;
    seen = λ h k. ground (
      arith,
      h,
      v.holds_x (ap in_trial1 p),
      ap (λ b. load m.mem b var_x) (v.drained1 (ap in_trial1 p)),
    );
    checked = λ h. cc;
    none_counted = v.none_counted;
  }

  second_barrier-Ordered :
      m.place0 ≡ done0
      → m.place1 ≡ done1
      → Ordered (record m { place0 = ready0; place1 = checking })
  second_barrier-Ordered p q = record {
    together = refl;
    drained0 = v.drained0;
    drained1 = λ h. cc;
    holds_x = λ h. cc;
    holds_y = λ h. cc;
    clear_x = λ h. cc;
    clear_xy = λ h. cc;
    seen = λ h k. cc;
    checked = λ h. v.seen p q;
    none_counted = v.none_counted;
  }

  check-Ordered : m.place1 ≡ checking → Ordered (count_trial m)
  unfolding count_trial
  check-Ordered p = record {
    together = ground (arith, v.together);
    drained0 = v.drained0;
    drained1 = λ h. cc;
    holds_x = λ h. cc;
    holds_y = λ h. cc;
    clear_x = λ h. cc;
    clear_xy = λ h. cc;
    seen = λ h k. cc;
    checked = λ h. cc;
    none_counted = ground (arith, v.checked p, v.none_counted);
  }

  flush1-Ordered :
      (w : Var) (a : ℕ) (rest : Buffer)
      → m.buffer1 ≡ (w, a) ∷ rest
      → Ordered (record m { mem = poke m.mem w a; buffer1 = rest })
  flush1-Ordered w a rest e = record {
    together = v.together;
    drained0 = v.drained0;
    drained1 = λ h. absurd (cc (v.drained1 h, e));
    holds_x = λ h. absurd (cc (v.drained1 h, e));
    holds_y = λ h. absurd (cc (v.drained1 h, e));
    clear_x = λ h. sym (ap (λ b. load m.mem b var_x) e) ∙ v.clear_x h;
    clear_xy = λ h. (
      sym (ap (λ b. load m.mem b var_x) e) ∙ (v.clear_xy h).0,
      sym (ap (λ b. load m.mem b var_y) e) ∙ (v.clear_xy h).1,
    );
    seen = v.seen;
    checked = v.checked;
    none_counted = v.none_counted;
  }

Step-Ordered : {n : ℕ} {m t : Trial} → Step true n m t → Ordered m → Ordered t
Step-Ordered {m} (reset_x p lt) v = reset_x-Ordered m v p
Step-Ordered {m} (reset_y p) v = reset_y-Ordered m v p
Step-Ordered {m} (first_barrier p q e f) v = first_barrier-Ordered m v p q f
Step-Ordered (store_x_relaxed h p) v = cc
Step-Ordered (store_y_relaxed h p) v = cc
Step-Ordered {m} (store_x_seq_cst h p e) v = store_x-Ordered m v p
Step-Ordered {m} (store_y_seq_cst h p e) v = store_y-Ordered m v p
Step-Ordered {m} (load_y p) v = load_y-Ordered m v p
Step-Ordered {m} (load_x p) v = load_x-Ordered m v p
Step-Ordered {m} (second_barrier p q e f) v = second_barrier-Ordered m v p q
Step-Ordered {m} (check p) v = check-Ordered m v p
Step-Ordered (flush0 w a rest e) v = absurd (cc (v.drained0, e))
Step-Ordered {m} (flush1 w a rest e) v = flush1-Ordered m v w a rest e

Reach-Ordered : {n : ℕ} {m : Trial} → Reach true n m → Ordered m
Reach-Ordered start = record {
  together = refl;
  drained0 = refl;
  drained1 = λ h. cc;
  holds_x = λ h. cc;
  holds_y = λ h. cc;
  clear_x = λ h. cc;
  clear_xy = λ h. cc;
  seen = λ h k. cc;
  checked = λ h. cc;
  none_counted = refl;
}
Reach-Ordered (step r s) = Step-Ordered s (Reach-Ordered r)

-- With memory_order_seq_cst no trial counts a reordering, however many trials there are, however the
-- threads interleave and whenever a store buffer drains.
pub reordered_count_seq_cst :
    (iterations : ℕ) (m : Trial) → Reach true iterations m → m.reordered_count ≡ 0
reordered_count_seq_cst iterations m r = (Reach-Ordered r).none_counted

-- between two trials, with drained buffers
abbrev between : (x y r1 r2 trials reordered_count : ℕ) → Trial
between x y r1 r2 trials reordered_count = record {
  mem = record { x = x; y = y };
  buffer0 = [];
  buffer1 = [];
  r1 = r1;
  r2 = r2;
  place0 = ready0;
  place1 = resetting_x;
  trials = trials;
  reordered_count = reordered_count;
}

-- both loads overtake both stores
reordered_trial :
    (n x y r1 r2 t c : ℕ)
    → t < n
    → Reach false n (between x y r1 r2 t c)
    → Reach false n (between 1 1 0 0 (t + 1) (c + 1))
unfolding count_trial
reordered_trial n x y r1 r2 t c lt r =
    let reset = step (step r (reset_x refl lt)) (reset_y refl) in
    let clear = step (step reset (flush1 var_x 0 _ refl)) (flush1 var_y 0 _ refl) in
    let stored =
      step (step (step clear (first_barrier refl refl refl refl)) (store_x_relaxed refl refl))
        (store_y_relaxed refl refl) in
    let loaded = step (step stored (load_y refl)) (load_x refl) in
    let drained = step (step loaded (flush0 var_x 1 _ refl)) (flush1 var_y 1 _ refl) in
    step (step drained (second_barrier refl refl refl refl)) (check refl)

reordered_trials :
    (n k : ℕ)
    → k ≤ n
    → (x : ℕ) × (y : ℕ) × (r1 : ℕ) × (r2 : ℕ) × Reach false n (between x y r1 r2 k k)
reordered_trials n zero h = (0, 0, 0, 0, start)
reordered_trials n (suc k) h =
    let (x, y, r1, r2, r) = reordered_trials n k (omega arith) in
    (
      1,
      1,
      0,
      0,
      subst (λ j. Reach false n (between 1 1 0 0 j j)) (omega arith)
          (reordered_trial n x y r1 r2 k k (omega arith) r),
    )

-- With memory_order_relaxed every trial of a test can be counted as reordered, however many there are.
pub reordered_count_relaxed :
    (iterations : ℕ)
    → (m : Trial) × Reach false iterations m
      × (m.trials ≡ iterations)
      × (m.reordered_count ≡ iterations)
reordered_count_relaxed iterations =
    let (x, y, r1, r2, r) = reordered_trials iterations iterations (omega arith) in
    (between x y r1 r2 iterations iterations, r, refl, refl)

-- ===== src/StoreBuffers/Litmus.antt =====
-- RunStoreLoadLitmusTest (common/store_buffer/challenge.cc) on a machine in which each thread has a
-- first-in first-out buffer of stores: a load looks into its own thread's buffer first, the oldest
-- store goes to memory at any moment, and a sequentially consistent store (`xchg`) waits until the
-- buffer is empty and goes to memory at once. A barrier is passed by both threads together, with
-- empty buffers, since what comes before it is visible after it.
use hotpathcplusplus.Base.{
  ℕ, ◌+◌, ◌<◌, ◌≡◌, Bool, true, false, ◌&&◌, List, [], ◌∷◌, ◌++◌, ◌==◌, if◌then◌else◌,
}

pub data Var : Type 0 where
  var_x var_y : Var

pub record Memory : Type 0 where
  pub x : ℕ
  pub y : ℕ

abbrev pub peek : Memory → Var → ℕ
peek mem var_x = mem.x
peek mem var_y = mem.y

abbrev pub poke : Memory → Var → ℕ → Memory
poke mem var_x a = record mem { x = a }
poke mem var_y a = record mem { y = a }

abbrev pub Buffer : Type 0
Buffer = List (Var × ℕ)

-- What a thread reads: the newest store to the variable in its own buffer, or else memory.
abbrev pub load : Memory → Buffer → Var → ℕ
load mem [] v = peek mem v
load mem ((w, a) ∷ buffer) v = load (poke mem w a) buffer v

-- The first thread: at the first barrier, before `x.store(1)`, before `y.load`, at the second.
pub data Place0 : Type 0 where
  ready0 storing0 loading0 done0 : Place0

-- The second thread: before `x.store(0)` and `y.store(0)`, at the first barrier, before `y.store(1)`
-- and `x.load`, at the second barrier, before the count.
pub data Place1 : Type 0 where
  resetting_x resetting_y ready1 storing1 loading1 done1 checking : Place1

pub record Trial : Type 0 where
  pub mem : Memory
  pub buffer0 : Buffer
  pub buffer1 : Buffer
  pub r1 : ℕ
  pub r2 : ℕ
  pub place0 : Place0
  pub place1 : Place1
  pub trials : ℕ
  pub reordered_count : ℕ

abbrev pub initial : Trial
initial = record {
  mem = record { x = 0; y = 0 };
  buffer0 = [];
  buffer1 = [];
  r1 = 0;
  r2 = 0;
  place0 = ready0;
  place1 = resetting_x;
  trials = 0;
  reordered_count = 0;
}

-- `if (r1 == 0 && r2 == 0) ++reordered_count`, and on to the next iteration
unfoldable pub count_trial : Trial → Trial
count_trial m = record m {
  place1 = resetting_x;
  trials = m.trials + 1;
  reordered_count = if (m.r1 == 0) && (m.r2 == 0) then m.reordered_count + 1 else m.reordered_count;
}

-- One step of a test of `iterations` trials.
pub data Step (use_seq_cst : Bool) (iterations : ℕ) (m : Trial) : Trial → Type 0 where
  reset_x :
      m.place1 ≡ resetting_x
      → m.trials < iterations
      → Step use_seq_cst iterations m
          (record m { place1 = resetting_y; buffer1 = m.buffer1 ++ (var_x, 0) ∷ [] })
  reset_y :
      m.place1 ≡ resetting_y
      → Step use_seq_cst iterations m
          (record m { place1 = ready1; buffer1 = m.buffer1 ++ (var_y, 0) ∷ [] })
  first_barrier :
      m.place0 ≡ ready0
      → m.place1 ≡ ready1
      → m.buffer0 ≡ []
      → m.buffer1 ≡ []
      → Step use_seq_cst iterations m (record m { place0 = storing0; place1 = storing1 })
  store_x_relaxed :
      use_seq_cst ≡ false
      → m.place0 ≡ storing0
      → Step use_seq_cst iterations m
          (record m { place0 = loading0; buffer0 = m.buffer0 ++ (var_x, 1) ∷ [] })
  store_y_relaxed :
      use_seq_cst ≡ false
      → m.place1 ≡ storing1
      → Step use_seq_cst iterations m
          (record m { place1 = loading1; buffer1 = m.buffer1 ++ (var_y, 1) ∷ [] })
  store_x_seq_cst :
      use_seq_cst ≡ true
      → m.place0 ≡ storing0
      → m.buffer0 ≡ []
      → Step use_seq_cst iterations m (record m { place0 = loading0; mem = poke m.mem var_x 1 })
  store_y_seq_cst :
      use_seq_cst ≡ true
      → m.place1 ≡ storing1
      → m.buffer1 ≡ []
      → Step use_seq_cst iterations m (record m { place1 = loading1; mem = poke m.mem var_y 1 })
  load_y :
      m.place0 ≡ loading0
      → Step use_seq_cst iterations m (record m { place0 = done0; r1 = load m.mem m.buffer0 var_y })
  load_x :
      m.place1 ≡ loading1
      → Step use_seq_cst iterations m (record m { place1 = done1; r2 = load m.mem m.buffer1 var_x })
  second_barrier :
      m.place0 ≡ done0
      → m.place1 ≡ done1
      → m.buffer0 ≡ []
      → m.buffer1 ≡ []
      → Step use_seq_cst iterations m (record m { place0 = ready0; place1 = checking })
  check : m.place1 ≡ checking → Step use_seq_cst iterations m (count_trial m)
  flush0 :
      (v : Var) (a : ℕ) (rest : Buffer)
      → m.buffer0 ≡ (v, a) ∷ rest
      → Step use_seq_cst iterations m (record m { mem = poke m.mem v a; buffer0 = rest })
  flush1 :
      (v : Var) (a : ℕ) (rest : Buffer)
      → m.buffer1 ≡ (v, a) ∷ rest
      → Step use_seq_cst iterations m (record m { mem = poke m.mem v a; buffer1 = rest })

pub data Reach (use_seq_cst : Bool) (iterations : ℕ) : Trial → Type 0 where
  start : Reach use_seq_cst iterations initial
  step :
      {m n : Trial}
      → Reach use_seq_cst iterations m
      → Step use_seq_cst iterations m n
      → Reach use_seq_cst iterations n

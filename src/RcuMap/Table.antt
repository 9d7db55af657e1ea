-- ===== src/RcuMap/Table.antt =====
-- The map of common/concurrency/rcu_hash_map.h. A node is its address with its key and value; a
-- chain lists the nodes from the bucket's head on. `retired` lists what was handed to
-- EpochBasedReclamation::Retire, latest first. `write_mutex_` makes each writer's call one step.
-- `none` is undefined behaviour: a hash taken modulo a table of size 0.
use hotpathcplusplus.Base.{
  ℕ, zero, suc, ◌%◌, ◌≡◌, ◌↔◌, Bool, true, false, List, [], ◌∷◌, Option, none, some, get_or, set,
  replicate, leb, if◌then◌else◌, add64, sub64, mul64,
}

-- `K` with its `==`, and the template parameter `Hash`
pub record Key {ℓ} (K : Type ℓ) : Type ℓ where
  pub equal : K → K → Bool
  pub equal_iff : (a b : K) → (equal a b ≡ true) ↔ (a ≡ b)
  pub hash : K → ℕ

pub record Node {ℓ} (K V : Type ℓ) : Type ℓ where
  pub address : ℕ
  pub key : K
  pub value : V

pub record Table {ℓ} (K V : Type ℓ) : Type ℓ where
  pub buckets : List (List (Node K V))
  pub size : ℕ

pub data Retired : Type 0 where
  node : ℕ → Retired
  table : Retired

pub record RcuHashMap {ℓ} (K V : Type ℓ) : Type ℓ where
  pub table : Table K V
  pub count : ℕ
  pub generation : ℕ
  pub fresh : ℕ  -- the next address that `new` returns
  pub retired : List Retired

-- the bind of `Option`
infixl 5 ◌>>=◌
abbrev pub ◌>>=◌ {ℓ κ} : {A : Type ℓ} {B : Type κ} → Option A → (A → Option B) → Option B
none >>= f = none
some a >>= f = f a

unfoldable pub new_table {ℓ} : {K V : Type ℓ} → ℕ → Table K V
new_table size = record { buckets = replicate size []; size = size }

unfoldable pub new_map {ℓ} : {K V : Type ℓ} → ℕ → RcuHashMap K V
unfolding new_table
new_map size = record { table = new_table size; count = 0; generation = 0; fresh = 0; retired = [] }

module _ {ℓ} {K : Type ℓ} ⦃k : Key K⦄ where
  abbrev pub same : K → K → Bool
  same = k.equal

  -- `hash_fn_(key) % t->size`
  unfoldable pub bucket_index : K → ℕ → Option ℕ
  bucket_index key zero = none
  bucket_index key (suc n) = some (k.hash key % suc n)

module _ {ℓ} {K V : Type ℓ} ⦃k : Key K⦄ where
  -- the walk along a chain
  unfoldable pub find : K → List (Node K V) → Option V
  find key [] = none
  find key (n ∷ ns) = if same n.key key then some n.value else find key ns

  -- Get, with no writer inside the node that it copies
  unfoldable pub get : RcuHashMap K V → K → Option (Option V)
  unfolding bucket_index find
  get m key = do i ← bucket_index key m.table.size; some (find key (get_or m.table.buckets i []))

  -- `Put`'s walk: the chain with the new node in the place of the one that it replaces, and that one
  unfoldable pub replace : Node K V → List (Node K V) → Option (Node K V × List (Node K V))
  replace new [] = none
  replace new (n ∷ ns) =
      if same n.key new.key
      then some (n, new ∷ ns)
      else elim (replace new ns) [ none ↦ none | some (old, ns') ↦ some (old, n ∷ ns') ]

  -- `Remove`'s walk: the chain without the node, and the node
  unfoldable pub unlink : K → List (Node K V) → Option (Node K V × List (Node K V))
  unlink key [] = none
  unlink key (n ∷ ns) =
      if same n.key key
      then some (n, ns)
      else elim (unlink key ns) [ none ↦ none | some (old, ns') ↦ some (old, n ∷ ns') ]

  -- `Resize`'s inner loop: copies pushed on the new buckets; the next address goes with them
  unfoldable pub copy_chain :
      ℕ → List (Node K V) → ℕ × List (List (Node K V)) → Option (ℕ × List (List (Node K V)))
  copy_chain size [] acc = some acc
  copy_chain size (n ∷ ns) (fresh, buckets) = do
    i ← bucket_index n.key size
    copy_chain size ns (
      suc fresh,
      set buckets i
          (record { address = fresh; key = n.key; value = n.value } ∷ get_or buckets i []),
    )

  unfoldable pub copy_all :
      ℕ → List (List (Node K V)) → ℕ × List (List (Node K V)) → Option (ℕ × List (List (Node K V)))
  unfolding copy_chain
  copy_all size [] acc = some acc
  copy_all size (c ∷ cs) acc = copy_chain size c acc >>= copy_all size cs

  unfoldable pub resize : RcuHashMap K V → ℕ → Option (RcuHashMap K V)
  unfolding copy_all
  resize m size = do
    (fresh, buckets) ← copy_all size m.table.buckets (m.fresh, replicate size [])
    some (record m {
      table = record { buckets = buckets; size = size };
      fresh = fresh;
      retired = Retired.table ∷ m.retired;
    })

  -- the growth test at the start of Put
  unfoldable pub grow : RcuHashMap K V → Option (RcuHashMap K V)
  unfolding resize
  grow m = if leb m.table.size m.count then resize m (mul64 m.table.size 2) else some m

  -- Put after its walk: a replacement that retires the old node, or a new head of the chain
  unfoldable pub finish_put :
      RcuHashMap K V
      → ℕ
      → Node K V
      → List (Node K V)
      → Option (Node K V × List (Node K V))
      → RcuHashMap K V
  finish_put m i new chain (some (old, chain')) = record m {
    table = record m.table { buckets = set m.table.buckets i chain' };
    generation = add64 m.generation 1;
    fresh = suc m.fresh;
    retired = Retired.node old.address ∷ m.retired;
  }
  finish_put m i new chain none = record m {
    table = record m.table { buckets = set m.table.buckets i (new ∷ chain) };
    count = add64 m.count 1;
    generation = add64 m.generation 1;
    fresh = suc m.fresh;
  }

  unfoldable pub put_at : RcuHashMap K V → K → V → ℕ → RcuHashMap K V
  unfolding replace finish_put
  put_at m key value i =
      let chain = get_or m.table.buckets i [] in
      let new : Node K V = record { address = m.fresh; key = key; value = value } in
      finish_put m i new chain (replace new chain)

  unfoldable pub put : RcuHashMap K V → K → V → Option (RcuHashMap K V)
  put m key value = do m' ← grow m; i ← bucket_index key m'.table.size; some (put_at m' key value i)

  unfoldable pub finish_remove :
      RcuHashMap K V → ℕ → Option (Node K V × List (Node K V)) → Bool × RcuHashMap K V
  finish_remove m i none = (false, m)
  finish_remove m i (some (old, chain')) = (
    true,
    record m {
      table = record m.table { buckets = set m.table.buckets i chain' };
      count = sub64 m.count 1;
      generation = add64 m.generation 1;
      retired = Retired.node old.address ∷ m.retired;
    },
  )

  unfoldable pub remove : RcuHashMap K V → K → Option (Bool × RcuHashMap K V)
  remove m key = do
    i ← bucket_index key m.table.size
    some (finish_remove m i (unlink key (get_or m.table.buckets i [])))

unfoldable pub size {ℓ} : {K V : Type ℓ} → RcuHashMap K V → ℕ
size m = m.count

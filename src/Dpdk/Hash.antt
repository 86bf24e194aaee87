-- ===== src/Dpdk/Hash.antt =====
-- rte_hash: the calls of the library that the programs make, and what its documentation promises
-- of them. The table itself is not code of this repository, so it is a parameter everywhere.
use dpdk_code.Base.{ℕ, suc, ◌<◌, ◌≤◌, ◌≡◌, ◌≢◌, ◌⊎◌, Option, none, some}

-- `add` returns the new table, or `none` for a negative return value (the table is full).
-- `lookup` returns the data, or `none` for a negative return value.
pub record HashOps (T K V : Type 0) : Type 0 where
  pub lookup : T → K → Option V
  pub add : T → K → V → Option T
  pub del : T → K → T

-- A table maps keys to data: `add` inserts or overwrites, `del` removes, and other keys keep
-- their data.
pub record HashLaws {T K V : Type 0} (h : HashOps T K V) : Type 0 where
  pub lookup-add_self : (t t' : T) (k : K) (v : V) → h.add t k v ≡ some t' → h.lookup t' k ≡ some v
  pub lookup-add_ne :
      (t t' : T) (k j : K) (v : V) → h.add t k v ≡ some t' → j ≢ k → h.lookup t' j ≡ h.lookup t j
  pub lookup-del_self : (t : T) (k : K) → h.lookup (h.del t k) k ≡ none
  pub lookup-del_ne : (t : T) (k j : K) → j ≢ k → h.lookup (h.del t k) j ≡ h.lookup t j

-- `rte_hash_iterate` with its cursor: the next key and data with the cursor behind them, or
-- `none` for -ENOENT. `place` is the position where a key is stored, and `reset` empties the table.
pub record IterOps (T K V : Type 0) : Type 0 where
  pub hash : HashOps T K V
  pub iterate : T → ℕ → Option (K × V × ℕ)
  pub reset : T → T
  pub place : T → K → ℕ
  pub size : ℕ

-- The iteration visits the stored keys in the order of their places, each once, and a deletion
-- moves no other key.
pub record IterLaws {T K V : Type 0} (it : IterOps T K V) : Type 0 where
  pub hash : HashLaws it.hash
  pub iterate-lookup :
      (t : T) (i j : ℕ) (k : K) (v : V)
      → it.iterate t i ≡ some (k, v, j)
      → it.hash.lookup t k ≡ some v
  pub iterate-place :
      (t : T) (i j : ℕ) (k : K) (v : V)
      → it.iterate t i ≡ some (k, v, j)
      → (i ≤ it.place t k) × (j ≡ suc (it.place t k))
  pub iterate-next :
      (t : T) (i j : ℕ) (k q : K) (v w : V)
      → it.iterate t i ≡ some (k, v, j)
      → it.hash.lookup t q ≡ some w
      → i ≤ it.place t q
      → (q ≡ k) ⊎ (j ≤ it.place t q)
  pub iterate-none :
      (t : T) (i : ℕ) (q : K) (w : V)
      → it.iterate t i ≡ none
      → it.hash.lookup t q ≡ some w
      → it.place t q < i
  pub place-lt-size : (t : T) (q : K) (w : V) → it.hash.lookup t q ≡ some w → it.place t q < it.size
  pub place-del : (t : T) (k q : K) → it.place (it.hash.del t k) q ≡ it.place t q
  pub lookup-reset : (t : T) (q : K) → it.hash.lookup (it.reset t) q ≡ none

-- ===== src/Util/Map/Update.antt =====
-- map.hpp: the value of a key that is there, changed through its pointer.
use uavcan.Base.{
  ◌≡◌, refl, inl, inr, ap, subst, Bool, true, false, List, [], ◌∷◌, Option, none, some,
  if◌then◌else◌, Bool-cases, Option-cases, arith,
}
use uavcan.Util.Map.{
  Map, Pair, Group, matches, find_kv, find_key, access, assign_kv, assign_key, update,
}

-- The test is equality of keys.
abbrev pub IsSame : {K : Type 0} → (K → K → Bool) → Type 0
IsSame {K} same = ((a : K) → same a a ≡ true) × ((a b : K) → same a b ≡ true → a ≡ b)

module _ {K V : Type 0} (same : K → K → Bool) where
  abbrev pair_of : K → V → Option (Pair K V)
  pair_of key v = some (record { key = key; value = v })

  -- What an assignment to the slot of `key` does to a search.
  abbrev IsAssigned : K → V → (K → Option V) → (K → Option V) → Type 0
  IsAssigned key v before after =
      (after key ≡ some v) × ((other : K) → same other key ≡ false → after other ≡ before other)

  assign_kv-none :
      (key : K) (v : V) (kvs : List (Option (Pair K V)))
      → find_kv same kvs key ≡ none
      → assign_kv same (matches same key) (pair_of key v) kvs ≡ none
  unfolding find_kv assign_kv matches
  assign_kv-none key v [] h = refl
  assign_kv-none key v (none ∷ kvs) h = rw (assign_kv-none key v kvs h) refl
  assign_kv-none key v (some kv ∷ kvs) h = let rest = assign_kv-none key v kvs in ground arith

  assign_kv-some :
      (key : K) (v w : V) (kvs : List (Option (Pair K V)))
      → IsSame same
      → find_kv same kvs key ≡ some w
      → (kvs' : List (Option (Pair K V))) × (assign_kv same (matches same key) (pair_of key v) kvs
          ≡ some kvs')
        × IsAssigned key v (find_kv same kvs) (find_kv same kvs')
  unfolding find_kv assign_kv matches
  assign_kv-some key v w [] e h = absurd (ground arith)
  assign_kv-some key v w (none ∷ kvs) e h =
      let (kvs', done, (found, others)) = assign_kv-some key v w kvs e h in
      (none ∷ kvs', rw done refl, (found, others))
  assign_kv-some key v w (some kv ∷ kvs) e h = elim (Bool-cases (same key kv.key)) [
    | inl t ↦ (
      pair_of key v ∷ kvs,
      rw t refl,
      (
        rw (e.0 key) refl,
        λ other apart.
            let apart' : same other kv.key ≡ false =
              subst (λ k. same other k ≡ false) (e.1 key kv.key t) apart in
            rw (apart, apart') refl,
      ),
    )
    | inr f ↦
        let (kvs', done, (found, others)) = assign_kv-some key v w kvs e (ground arith) in
        (
          some kv ∷ kvs',
          rw (f, done) refl,
          (
            rw f found,
            λ other apart.
                ap (λ x. if same other kv.key then some kv.value else x) (others other apart),
          ),
        )
  ]

  -- A group that does not have the key is passed over.
  passed :
      (key : K) (v : V) (g : Group K V) (gs : List (Group K V))
      → find_kv same g.kvs key ≡ none
      → (gs' : List (Group K V)) × (assign_key same (matches same key) (pair_of key v) gs
          ≡ some gs')
        × IsAssigned key v (find_key same gs) (find_key same gs')
      → (gs' : List (Group K V)) × (assign_key same (matches same key) (pair_of key v) (g ∷ gs)
          ≡ some gs')
        × IsAssigned key v (find_key same (g ∷ gs)) (find_key same gs')
  unfolding find_key assign_key
  passed key v g gs missing (gs', done, (found, others)) = (
    g ∷ gs',
    rw (assign_key, assign_kv-none key v g.kvs missing, done) refl,
    (
      rw (find_key, missing) found,
      λ other apart.
          ap (λ x. elim (find_kv same g.kvs other) [ some w ↦ some w | none ↦ x ])
            (others other apart),
    ),
  )

  assign_key-some :
      (key : K) (v w : V) (gs : List (Group K V))
      → IsSame same
      → find_key same gs key ≡ some w
      → (gs' : List (Group K V)) × (assign_key same (matches same key) (pair_of key v) gs
          ≡ some gs')
        × IsAssigned key v (find_key same gs) (find_key same gs')
  unfolding find_key assign_key
  assign_key-some key v w [] e h = absurd (ground arith)
  assign_key-some key v w (g ∷ gs) e h = elim (Option-cases (find_kv same g.kvs key)) [
    | inr (x, here) ↦
        let (kvs', done, (found, others)) = assign_kv-some key v x g.kvs e here in
        (
          record g { kvs = kvs' } ∷ gs,
          rw (assign_key, done) refl,
          (rw (find_key, found) refl, λ other apart. rw (find_key, others other apart) refl),
        )
    | inl missing ↦
        let behind : find_key same gs key ≡ some w = ground arith in
        passed key v g gs missing (assign_key-some key v w gs e behind)
  ]

  updated :
      (m : Map K V) (key : K) (v : V)
      → (gs' : List (Group K V)) × (assign_key same (matches same key) (pair_of key v) m.groups
          ≡ some gs')
        × IsAssigned key v (find_key same m.groups) (find_key same gs')
      → IsAssigned key v (access same m) (access same (update same m key v))
  unfolding access update
  updated m key v (gs', done, (found, others)) =
      (rw (update, done) found, λ other apart. rw (update, done) (others other apart))

  -- An update of a key that is there: the key has the new value, and every other key its own.
  pub access-update :
      (m : Map K V) (key : K) (v w : V)
      → IsSame same
      → access same m key ≡ some w
      → (access same (update same m key v) key ≡ some v)
        × ((other : K)
            → same other key ≡ false
            → access same (update same m key v) other ≡ access same m other)
  unfolding access update
  access-update m key v w e h = updated m key v (assign_key-some key v w m.groups e h)

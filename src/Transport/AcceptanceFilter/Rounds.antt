-- ===== src/Transport/AcceptanceFilter/Rounds.antt =====
-- uc_can_acceptance_filter_configurator.cpp: the loop of mergeConfigurations, on the list of the
-- configurations.
use uavcan.Base.{
  ℕ, zero, suc, ◌<◌, ◌≡◌, refl, ap, ap₂, subst, ◌∙◌, inl, inr, Bool, true, false, List, [], ◌∷◌,
  some, none, length, get_elem?, set, length-set, Bool-cases, arith,
}
use uavcan.Util.Multiset.{Multiset, assign_by_index}
use uavcan.Util.Multiset.Contents.{
  contents, delete_first, get_by_index-contents, assign_by_index-contents,
  remove_first_where-contents,
}
use uavcan.Transport.AcceptanceFilter.{
  FilterConfig, empty_config, same_config, config_at, merge_filters, Best, merge_pair,
}
use uavcan.Transport.AcceptanceFilter.Merge.{
  Accepts, IsExtended, merge_filters-left, merge_filters-right, merge_filters-IsExtended,
}

-- Some filter of the list accepts the identifier.
pub data Accepted (x : ℕ) : List FilterConfig → Type 0 where
  here : {c : FilterConfig} {cs : List FilterConfig} → Accepts c x → Accepted x (c ∷ cs)
  there : {c : FilterConfig} {cs : List FilterConfig} → Accepted x cs → Accepted x (c ∷ cs)

abbrev pub EveryExtended : List FilterConfig → Type 0
EveryExtended [] = Unit
EveryExtended (c ∷ cs) = IsExtended c × EveryExtended cs

abbrev pub c_at : List FilterConfig → ℕ → FilterConfig
c_at cs i = elim (get_elem? cs i) [ some c ↦ c | none ↦ empty_config ]

pub config_at-contents : (m : Multiset FilterConfig) (i : ℕ) → config_at m i ≡ c_at (contents m) i
config_at-contents m i =
    ap (λ o. elim o [ some c ↦ c | none ↦ empty_config ]) (get_by_index-contents m i)

get_elem?-within :
    (cs : List FilterConfig) (i : ℕ) → i < length cs → get_elem? cs i ≡ some (c_at cs i)
get_elem?-within [] i h = absurd (omega arith)
get_elem?-within (c ∷ cs) zero h = refl
get_elem?-within (c ∷ cs) (suc i) h = get_elem?-within cs i (omega arith)

pub c_at-IsExtended :
    (cs : List FilterConfig) (i : ℕ) → i < length cs → EveryExtended cs → IsExtended (c_at cs i)
c_at-IsExtended [] i h e = absurd (omega arith)
c_at-IsExtended (c ∷ cs) zero h e = e.0
c_at-IsExtended (c ∷ cs) (suc i) h e = c_at-IsExtended cs i (omega arith) e.1

set-EveryExtended :
    (cs : List FilterConfig) (j : ℕ) {m : FilterConfig}
    → IsExtended m
    → EveryExtended cs
    → EveryExtended (set cs j m)
set-EveryExtended [] j em e = e
set-EveryExtended (c ∷ cs) zero em e = (em, e.1)
set-EveryExtended (c ∷ cs) (suc j) em e = (e.0, set-EveryExtended cs j em e.1)

get_elem?-set_self :
    (cs : List FilterConfig) (j : ℕ) (m : FilterConfig)
    → j < length cs
    → get_elem? (set cs j m) j ≡ some m
get_elem?-set_self [] j m h = absurd (omega arith)
get_elem?-set_self (c ∷ cs) zero m h = refl
get_elem?-set_self (c ∷ cs) (suc j) m h = get_elem?-set_self cs j m (omega arith)

get_elem?-set_below :
    (cs : List FilterConfig) (i j : ℕ) (m : FilterConfig)
    → i < j
    → get_elem? (set cs j m) i ≡ get_elem? cs i
get_elem?-set_below [] i j m h = refl
get_elem?-set_below (c ∷ cs) i zero m h = absurd (omega arith)
get_elem?-set_below (c ∷ cs) zero (suc j) m h = refl
get_elem?-set_below (c ∷ cs) (suc i) (suc j) m h = get_elem?-set_below cs i j m (omega arith)

pub delete_first-hit :
    (p : FilterConfig → Bool) (c : FilterConfig) (cs : List FilterConfig)
    → p c ≡ true
    → delete_first p (c ∷ cs) ≡ cs
delete_first-hit p c cs h = ground arith

delete_first-miss :
    (p : FilterConfig → Bool) (c : FilterConfig) (cs : List FilterConfig)
    → p c ≡ false
    → delete_first p (c ∷ cs) ≡ c ∷ delete_first p cs
delete_first-miss p c cs h = ground arith

same_config-eq : (v c : FilterConfig) → same_config v c ≡ true → c ≡ v
same_config-eq v c h = ground arith

pub same_config_self : (v : FilterConfig) → same_config v v ≡ true
same_config_self v = ground arith

Accepted-at :
    (cs : List FilterConfig) (j x : ℕ) {m : FilterConfig}
    → get_elem? cs j ≡ some m
    → Accepts m x
    → Accepted x cs
Accepted-at [] j x e h = absurd (ground arith)
Accepted-at (c ∷ cs) zero x e h = let same : c ≡ _ = ground arith in here (rw same h)
Accepted-at (c ∷ cs) (suc j) x e h = there (Accepted-at cs j x e h)

-- A filter may be replaced by one that accepts what it accepts.
Accepted-set :
    (cs : List FilterConfig) (j x : ℕ) (m : FilterConfig)
    → (Accepts (c_at cs j) x → Accepts m x)
    → Accepted x cs
    → Accepted x (set cs j m)
Accepted-set [] j x m wider a = elim a [ ]
Accepted-set (c ∷ cs) zero x m wider (here h) = here (wider h)
Accepted-set (c ∷ cs) zero x m wider (there h) = there h
Accepted-set (c ∷ cs) (suc j) x m wider (here h) = here h
Accepted-set (c ∷ cs) (suc j) x m wider (there h) = there (Accepted-set cs j x m wider h)

-- A filter may be removed where a later one accepts what it accepts.
module _ (v m : FilterConfig) (x : ℕ) (wider : Accepts v x → Accepts m x) where
  Accepted-delete :
      (cs : List FilterConfig) (i j : ℕ)
      → i < j
      → get_elem? cs i ≡ some v
      → get_elem? cs j ≡ some m
      → Accepted x cs
      → Accepted x (delete_first (same_config v) cs)
  Accepted-delete [] i j lt at_i at_j a = absurd (ground arith)
  Accepted-delete (c ∷ cs) i zero lt at_i at_j a = absurd (omega arith)
  Accepted-delete (c ∷ cs) i (suc j) lt at_i at_j (here h) = elim (Bool-cases (same_config v c)) [
    | inl t ↦
        let now : Accepts v x = subst (λ d. Accepts d x) (same_config-eq v c t) h in
        rw (delete_first-hit (same_config v) c cs t) (Accepted-at cs j x at_j (wider now))
    | inr f ↦ rw (delete_first-miss (same_config v) c cs f) (here h)
  ]
  Accepted-delete (c ∷ cs) zero (suc j) lt at_i at_j (there h) =
      let same : c ≡ v = ground arith in
      let hit : same_config v c ≡ true = rw same (same_config_self v) in
      rw (delete_first-hit (same_config v) c cs hit) h
  Accepted-delete (c ∷ cs) (suc i) (suc j) lt at_i at_j (there h) =
      elim (Bool-cases (same_config v c)) [
        | inl t ↦ rw (delete_first-hit (same_config v) c cs t) h
        | inr f ↦
            rw (delete_first-miss (same_config v) c cs f)
              (there (Accepted-delete cs i j (omega arith) at_i at_j h))
      ]

delete_first-EveryExtended :
    (p : FilterConfig → Bool) (cs : List FilterConfig)
    → EveryExtended cs
    → EveryExtended (delete_first p cs)
delete_first-EveryExtended p [] e = e
delete_first-EveryExtended p (c ∷ cs) e = elim (Bool-cases (p c)) [
  | inl t ↦ rw (delete_first-hit p c cs t) e.1
  | inr f ↦ rw (delete_first-miss p c cs f) (e.0, delete_first-EveryExtended p cs e.1)
]

length-delete_first :
    (v : FilterConfig) (cs : List FilterConfig) (i : ℕ)
    → get_elem? cs i ≡ some v
    → suc (length (delete_first (same_config v) cs)) ≡ length cs
length-delete_first v [] i e = absurd (ground arith)
length-delete_first v (c ∷ cs) zero e =
    let same : c ≡ v = ground arith in
    let hit : same_config v c ≡ true = rw same (same_config_self v) in
    ap (λ t. suc (length t)) (delete_first-hit (same_config v) c cs hit)
length-delete_first v (c ∷ cs) (suc i) e = elim (Bool-cases (same_config v c)) [
  | inl t ↦ ap (λ t. suc (length t)) (delete_first-hit (same_config v) c cs t)
  | inr f ↦
      ap (λ t. suc (length t)) (delete_first-miss (same_config v) c cs f)
      ∙ ap suc (length-delete_first v cs i e)
]

-- One configuration fewer, which accept no less.
pub record IsReduced (cs cs' : List FilterConfig) : Type 0 where
  pub shorter : suc (length cs') ≡ length cs
  pub extended : EveryExtended cs'
  pub wider : (x : ℕ) → Accepted x cs → Accepted x cs'

module _ (cs : List FilterConfig) (i j : ℕ) where
  abbrev pub reduced : List FilterConfig
  reduced =
      let replaced = set cs j (merge_filters (c_at cs i) (c_at cs j)) in
      delete_first (same_config (c_at replaced i)) replaced

  pub reduced-IsReduced : EveryExtended cs → i < j → j < length cs → IsReduced cs reduced
  reduced-IsReduced e lt within =
      let a = c_at cs i in
      let b = c_at cs j in
      let merged = merge_filters a b in
      let replaced = set cs j merged in
      let ea : IsExtended a = c_at-IsExtended cs i (omega arith) e in
      let eb : IsExtended b = c_at-IsExtended cs j within e in
      let there_i : get_elem? replaced i ≡ some a =
        get_elem?-set_below cs i j merged lt ∙ get_elem?-within cs i (omega arith) in
      let first : c_at replaced i ≡ a =
        ap (λ o. elim o [ some c ↦ c | none ↦ empty_config ]) there_i in
      rw first (record {
        shorter = length-delete_first a replaced i there_i ∙ length-set cs j merged;
        extended =
            delete_first-EveryExtended (same_config a) replaced
              (set-EveryExtended cs j (merge_filters-IsExtended a b ea eb) e);
        wider = λ x h.
            Accepted-delete a merged x (merge_filters-left a b x) replaced i j lt there_i
              (get_elem?-set_self cs j merged within)
              (Accepted-set cs j x merged (merge_filters-right a b x eb.mask_word) h);
      })

pub merge_pair-contents :
    (m : Multiset FilterConfig) (best : Best)
    → contents (merge_pair m best) ≡ reduced (contents m) best.i_rank best.j_rank
unfolding merge_pair
merge_pair-contents m best =
    let m' =
      assign_by_index m best.j_rank
        (merge_filters (config_at m best.i_rank) (config_at m best.j_rank)) in
    let e : contents m'
        ≡ set (contents m) best.j_rank
            (merge_filters (c_at (contents m) best.i_rank) (c_at (contents m) best.j_rank)) =
      assign_by_index-contents m best.j_rank _
      ∙ ap₂ (λ a b. set (contents m) best.j_rank (merge_filters a b))
          (config_at-contents m best.i_rank) (config_at-contents m best.j_rank) in
    remove_first_where-contents (same_config (config_at m' best.i_rank)) m'
    ∙ ap₂ (λ c l. delete_first (same_config c) l)
        (config_at-contents m' best.i_rank ∙ ap (λ l. c_at l best.i_rank) e) e

-- ===== src/Transport/AcceptanceFilter/Listeners.antt =====
-- uc_can_acceptance_filter_configurator.cpp: the configurations of the listeners, in the multiset.
use uavcan.Base.{
  ℕ, zero, suc, ◌+◌, ◌*◌, ◌^◌, ◌<◌, ◌≡◌, refl, sym, ap, subst, ◌∙◌, inl, inr, bit_or, bit_or_and,
  true, List, [], ◌∷◌, ◌++◌, some, length, get_elem?, length-append, digit, digit-lt, digit-bit_or,
  Bool-cases, arith,
}
use uavcan.Can.IoManager.{done}
use uavcan.Util.Multiset.{Multiset, emplace}
use uavcan.Util.Multiset.Contents.{contents}
use uavcan.Util.Multiset.Inserted.{emplace-IsInserted}
use uavcan.Transport.AcceptanceFilter.{FilterConfig, flagged, msg_mask, load_listeners}
use uavcan.Transport.AcceptanceFilter.Merge.{Accepts, IsExtended}
use uavcan.Transport.AcceptanceFilter.Rounds.{Accepted, EveryExtended}

flag_digit : digit 31 (2 ^ 31) ≡ 1
unfolding digit
flag_digit = refl

pub flagged-IsExtended : (id mask : ℕ) → id < 2 ^ 24 → mask < 2 ^ 24 → IsExtended (flagged id mask)
flagged-IsExtended id mask h k =
    let with_eff = bit_or mask (2 ^ 31) in
    let with_rtr = bit_or with_eff (2 ^ 30) in
    record {
      id_word = omega (arith, bit_or_and id (2 ^ 31));
      mask_word = omega (
        arith,
        bit_or_and mask (2 ^ 31),
        bit_or_and with_eff (2 ^ 30),
        bit_or_and with_rtr (2 ^ 29),
      );
      id_flag = omega (arith, digit-bit_or 31 id (2 ^ 31), flag_digit, digit-lt 31 id);
      mask_flag = omega (
        arith,
        digit-bit_or 31 mask (2 ^ 31),
        digit-bit_or 31 with_eff (2 ^ 30),
        digit-bit_or 31 with_rtr (2 ^ 29),
        flag_digit,
        digit-lt 31 (bit_or with_rtr (2 ^ 29)),
      );
    }

EveryExtended-insert :
    (xs ys : List FilterConfig) (c : FilterConfig)
    → IsExtended c
    → EveryExtended (xs ++ ys)
    → EveryExtended (xs ++ c ∷ ys)
EveryExtended-insert [] ys c ec e = (ec, e)
EveryExtended-insert (x ∷ xs) ys c ec e = (e.0, EveryExtended-insert xs ys c ec e.1)

Accepted-insert :
    (xs ys : List FilterConfig) (c : FilterConfig) (x : ℕ)
    → Accepted x (xs ++ ys)
    → Accepted x (xs ++ c ∷ ys)
Accepted-insert [] ys c x a = Accepted.there a
Accepted-insert (d ∷ xs) ys c x (Accepted.here h) = Accepted.here h
Accepted-insert (d ∷ xs) ys c x (Accepted.there a) = Accepted.there (Accepted-insert xs ys c x a)

Accepted-inserted :
    (xs ys : List FilterConfig) (c : FilterConfig) (x : ℕ) → Accepts c x → Accepted x (xs ++ c ∷ ys)
Accepted-inserted [] ys c x h = Accepted.here h
Accepted-inserted (d ∷ xs) ys c x h = Accepted.there (Accepted-inserted xs ys c x h)

-- `n` configurations more, which ask for the extended format; none is lost.
pub record Grows (n : ℕ) (m m' : Multiset FilterConfig) : Type 0 where
  pub longer : length (contents m') ≡ n + length (contents m)
  pub extended : EveryExtended (contents m) → EveryExtended (contents m')
  pub wider : (x : ℕ) → Accepted x (contents m) → Accepted x (contents m')
  pub chunk_size : m'.num_items ≡ m.num_items

Grows-after :
    {k : ℕ} {m m' m'' : Multiset FilterConfig} → Grows 1 m m' → Grows k m' m'' → Grows (suc k) m m''
Grows-after g h = record {
  longer = omega (arith, g.longer, h.longer);
  extended = λ e. h.extended (g.extended e);
  wider = λ x a. h.wider x (g.wider x a);
  chunk_size = h.chunk_size ∙ g.chunk_size;
}

pub emplace-num_items :
    (m : Multiset FilterConfig) (c : FilterConfig) → (emplace m c).1.num_items ≡ m.num_items
unfolding emplace
emplace-num_items m c = ground arith

module _ (m : Multiset FilterConfig) (c : FilterConfig) (room : 0 < m.num_items)
    (stored : (emplace m c).0 ≡ true) where
  pub emplace-Grows : IsExtended c → Grows 1 m (emplace m c).1
  emplace-Grows ec =
      let i = emplace-IsInserted m c room stored in
      record {
        longer =
            ap length i.has
            ∙ length-append i.front (c ∷ i.behind)
            ∙ omega (arith, ap length i.was, length-append i.front i.behind);
        extended = λ e.
            rw i.has (EveryExtended-insert i.front i.behind c ec (subst EveryExtended i.was e));
        wider = λ x a. rw i.has (Accepted-insert i.front i.behind c x (subst (Accepted x) i.was a));
        chunk_size = emplace-num_items m c;
      }

  pub emplace-Accepted : (x : ℕ) → Accepts c x → Accepted x (contents (emplace m c).1)
  emplace-Accepted x h =
      let i = emplace-IsInserted m c room stored in
      rw i.has (Accepted-inserted i.front i.behind c x h)

abbrev pub AreIds : List ℕ → Type 0
AreIds [] = Unit
AreIds (d ∷ ds) = (d < 2 ^ 16) × AreIds ds

-- The configuration of a listener's data type.
abbrev pub listener_config : ℕ → FilterConfig
listener_config d = flagged (d * 2 ^ 8) msg_mask

Grows-refl : (m : Multiset FilterConfig) → Grows 0 m m
Grows-refl m = record {
  longer = omega arith;
  extended = λ e. e;
  wider = λ x a. a;
  chunk_size = refl;
}

load_listeners-stored :
    (d : ℕ) (ds : List ℕ) (m : Multiset FilterConfig)
    → (emplace m (listener_config d)).0 ≡ true
    → load_listeners (d ∷ ds) m ≡ load_listeners ds (emplace m (listener_config d)).1
unfolding load_listeners
load_listeners-stored d ds m h = rw h refl

load_listeners-refused :
    (d : ℕ) (ds : List ℕ) (m : Multiset FilterConfig) {n : ℕ}
    → (load_listeners (d ∷ ds) m).0 ≡ done n
    → (emplace m (listener_config d)).0 ≡ true
unfolding load_listeners
load_listeners-refused d ds m h = elim (Bool-cases (emplace m (listener_config d)).0) [
  | inl t ↦ t
  | inr f ↦ absurd (ground arith)
]

pub load_listeners-Grows :
    (ds : List ℕ) (m : Multiset FilterConfig) {n : ℕ}
    → AreIds ds
    → 0 < m.num_items
    → (load_listeners ds m).0 ≡ done n
    → Grows (length ds) m (load_listeners ds m).1
load_listeners-Grows [] m ids room h = unfold load_listeners in Grows-refl m
load_listeners-Grows (d ∷ ds) m ids room h =
    let stored = load_listeners-refused d ds m h in
    let first =
      emplace-Grows m (listener_config d) room stored
        (flagged-IsExtended (d * 2 ^ 8) msg_mask (omega arith) (omega arith)) in
    let next = (emplace m (listener_config d)).1 in
    let now = load_listeners-stored d ds m stored in
    rw now (
      Grows-after first (
        load_listeners-Grows ds next ids.1 (omega (arith, first.chunk_size))
          (ap (λ r. r.0) (sym now) ∙ h)))

pub load_listeners-Accepted :
    (ds : List ℕ) (m : Multiset FilterConfig) {n : ℕ}
    → AreIds ds
    → 0 < m.num_items
    → (load_listeners ds m).0 ≡ done n
    → (i d x : ℕ) → get_elem? ds i ≡ some d
    → Accepts (listener_config d) x
    → Accepted x (contents (load_listeners ds m).1)
load_listeners-Accepted [] m ids room h i d x e a = absurd (ground arith)
load_listeners-Accepted (b ∷ ds) m ids room h zero d x e a =
    let stored = load_listeners-refused b ds m h in
    let next = (emplace m (listener_config b)).1 in
    let kept : 0 < next.num_items = omega (arith, emplace-num_items m (listener_config b)) in
    let now = load_listeners-stored b ds m stored in
    let same : d ≡ b = ground arith in
    let mine : Accepted x (contents next) =
      emplace-Accepted m (listener_config b) room stored x
        (subst (λ t. Accepts (listener_config t) x) same a) in
    rw now ((load_listeners-Grows ds next ids.1 kept (ap (λ r. r.0) (sym now) ∙ h)).wider x mine)
load_listeners-Accepted (b ∷ ds) m ids room h (suc i) d x e a =
    let stored = load_listeners-refused b ds m h in
    let next = (emplace m (listener_config b)).1 in
    let kept : 0 < next.num_items = omega (arith, emplace-num_items m (listener_config b)) in
    let now = load_listeners-stored b ds m stored in
    rw now (load_listeners-Accepted ds next ids.1 kept (ap (λ r. r.0) (sym now) ∙ h) i d x e a)

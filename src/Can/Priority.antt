-- ===== src/Can/Priority.antt =====
-- The arbitration order is a strict order.
use uavcan.Base.{
  ℕ, ◌≡◌, ◌↔◌, Bool, true, false, arith, ◌==◌, if◌then◌else◌, ◌/◌, ◌^◌, not, ltb, eqb, ◌&&◌,
}
use uavcan.Can.{
  CanFrame, priority_higher_than, is_extended, is_remote_transmission_request, clean_id,
}

-- The order on what the arbitration sees: format, remote flag and identifier.
higher : Bool → Bool → ℕ → Bool → Bool → ℕ → Bool
higher ext rtr c ext' rtr' c' =
    let a = if ext then c / 2 ^ 18 else c in
    let a' = if ext' then c' / 2 ^ 18 else c' in
    if not (eqb ext ext')
    then (if not (a == a') then ltb a a' else ext')
    else (if c == c' && not (eqb rtr rtr') then rtr' else ltb c c')

higher_trans :
    (e f g r s t : Bool) (a b c : ℕ)
    → higher e r a f s b ≡ true
    → higher f s b g t c ≡ true
    → higher e r a g t c ≡ true
unfolding higher
higher_trans e f g r s t a b c h k = ground arith

-- priorityHigherThan is transitive: a chain of frames, standard and extended mixed, never comes
-- back.
pub priority_higher_than_trans :
    (a b c : CanFrame)
    → priority_higher_than a b ≡ true
    → priority_higher_than b c ≡ true
    → priority_higher_than a c ≡ true
unfolding priority_higher_than higher
priority_higher_than_trans a b c =
    higher_trans (is_extended a) (is_extended b) (is_extended c) (is_remote_transmission_request a)
      (is_remote_transmission_request b) (is_remote_transmission_request c) (clean_id a)
      (clean_id b) (clean_id c)

-- No frame is higher than itself.
pub priority_higher_than_irrefl : (a : CanFrame) → priority_higher_than a a ≡ false
unfolding priority_higher_than
priority_higher_than_irrefl a = ground arith

higher_total :
    (e f r s : Bool) (a b : ℕ)
    → higher e r a f s b ≡ false
    → higher f s b e r a ≡ false
    → (e ≡ f) × (r ≡ s) × (a ≡ b)
unfolding higher
higher_total e f r s a b h k = ground arith

-- Frames of which neither is higher agree in format, remote flag and identifier, and such frames
-- only.
pub priority_higher_than_total :
    (a b : CanFrame)
    → ((priority_higher_than a b ≡ false) × (priority_higher_than b a ≡ false)) ↔ (
        (is_extended a ≡ is_extended b)
        × (is_remote_transmission_request a ≡ is_remote_transmission_request b)
        × (clean_id a ≡ clean_id b))
unfolding priority_higher_than higher
priority_higher_than_total a b = (
  λ h.
      higher_total (is_extended a) (is_extended b) (is_remote_transmission_request a)
        (is_remote_transmission_request b) (clean_id a) (clean_id b) h.0 h.1,
  λ h. ground arith,
)

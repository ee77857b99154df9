-- ===== src/Can/TxQueue/Order.antt =====
-- The queue stays in the order of arbitration, whichever way `push` takes.
use uavcan.Base.{
  ℕ, zero, suc, ◌≡◌, sym, ◌∙◌, ap, subst, arith, true, false, List, [], ◌∷◌, some, inl, inr,
  Bool-cases, leb, Option-cases, List-cases,
}
use uavcan.Can.{CanFrame, priority_higher_than}
use uavcan.Can.Priority.{priority_higher_than_trans, priority_higher_than_irrefl}
use uavcan.Can.TxQueue.{
  Entry, TxQueue, is_expired, qos_higher_than, free_entry, unlink, drop_expired, cleanup,
  lowest_qos, insert_before, register_rejected_frame, allocate_entry, enqueue, arbitrate, push,
  peek_from, peek,
}

-- No entry of the list is higher than `e`.
unfoldable pub Below : Entry → List Entry → Type 0
Below e [] = Unit {0}
Below e (x ∷ xs) = (priority_higher_than x.frame e.frame ≡ false) × Below e xs

-- No entry is higher than one in front of it.
unfoldable pub IsSorted : List Entry → Type 0
IsSorted [] = Unit {0}
IsSorted (e ∷ es) = Below e es × IsSorted es

not_both : (a b : CanFrame) → priority_higher_than a b ≡ true → priority_higher_than b a ≡ false
not_both a b h = elim (Bool-cases (priority_higher_than b a)) [
  | inl t ↦
      absurd (ground (arith, priority_higher_than_trans a b a h t, priority_higher_than_irrefl a))
  | inr f ↦ f
]

-- What is not higher than the second of two frames is not higher than the first.
not_higher :
    (a b c : CanFrame)
    → priority_higher_than a b ≡ true
    → priority_higher_than c b ≡ false
    → priority_higher_than c a ≡ false
not_higher a b c h k = elim (Bool-cases (priority_higher_than c a)) [
  | inl t ↦ absurd (ground (arith, priority_higher_than_trans c a b t h))
  | inr f ↦ f
]

Below-higher :
    (e x : Entry) (xs : List Entry)
    → priority_higher_than e.frame x.frame ≡ true
    → Below x xs
    → Below e xs
unfolding Below
Below-higher e x [] h k = tt
Below-higher e x (y ∷ ys) h k =
    (not_higher e.frame x.frame y.frame h k.0, Below-higher e x ys h k.1)

Below-insert_before :
    (x e : Entry) (xs : List Entry)
    → priority_higher_than e.frame x.frame ≡ false
    → Below x xs
    → Below x (insert_before e xs)
unfolding Below insert_before
Below-insert_before x e [] h k = (h, tt)
Below-insert_before x e (y ∷ ys) h k = elim (Bool-cases (priority_higher_than e.frame y.frame)) [
  | inl t ↦ rw t (h, k)
  | inr f ↦ rw f (k.0, Below-insert_before x e ys h k.1)
]

insert_before-IsSorted : (e : Entry) (xs : List Entry) → IsSorted xs → IsSorted (insert_before e xs)
unfolding IsSorted Below insert_before
insert_before-IsSorted e [] s = (tt, tt)
insert_before-IsSorted e (x ∷ xs) s = elim (Bool-cases (priority_higher_than e.frame x.frame)) [
  | inl t ↦ rw t ((not_both e.frame x.frame t, Below-higher e x xs t s.0), s)
  | inr f ↦ rw f (Below-insert_before x e xs f s.0, insert_before-IsSorted e xs s.1)
]

Below-unlink : (x : Entry) (xs : List Entry) (at : ℕ) → Below x xs → Below x (unlink xs at)
unfolding Below unlink
Below-unlink x [] at k = tt
Below-unlink x (y ∷ ys) zero k = k.1
Below-unlink x (y ∷ ys) (suc at) k = (k.0, Below-unlink x ys at k.1)

unlink-IsSorted : (xs : List Entry) (at : ℕ) → IsSorted xs → IsSorted (unlink xs at)
unfolding IsSorted unlink
unlink-IsSorted [] at s = tt
unlink-IsSorted (x ∷ xs) zero s = s.1
unlink-IsSorted (x ∷ xs) (suc at) s = (Below-unlink x xs at s.0, unlink-IsSorted xs at s.1)

Below-drop_expired :
    (x : Entry) (now : ℕ) (xs : List Entry) (q : TxQueue)
    → Below x xs
    → Below x (drop_expired now xs q).0
unfolding Below drop_expired
Below-drop_expired x now [] q k = tt
Below-drop_expired x now (y ∷ ys) q k = elim (Bool-cases (is_expired now y)) [
  | inl t ↦ rw t (Below-drop_expired x now ys (free_entry y (register_rejected_frame q)) k.1)
  | inr f ↦ rw f (k.0, Below-drop_expired x now ys q k.1)
]

drop_expired-IsSorted :
    (now : ℕ) (xs : List Entry) (q : TxQueue) → IsSorted xs → IsSorted (drop_expired now xs q).0
unfolding IsSorted drop_expired
drop_expired-IsSorted now [] q s = tt
drop_expired-IsSorted now (x ∷ xs) q s = elim (Bool-cases (is_expired now x)) [
  | inl t ↦ rw t (drop_expired-IsSorted now xs (free_entry x (register_rejected_frame q)) s.1)
  | inr f ↦ rw f (Below-drop_expired x now xs q s.0, drop_expired-IsSorted now xs q s.1)
]

enqueue-IsSorted :
    (q : TxQueue) (storage : List ℕ) (frame : CanFrame) (deadline qos flags : ℕ)
    → IsSorted q.queue
    → IsSorted (enqueue q storage frame deadline qos flags).queue
unfolding enqueue
enqueue-IsSorted q storage frame deadline qos flags s = insert_before-IsSorted _ q.queue s

cleanup-IsSorted : (now : ℕ) (q : TxQueue) → IsSorted q.queue → IsSorted (cleanup now q).queue
unfolding cleanup
cleanup-IsSorted now q s = drop_expired-IsSorted now q.queue q s

arbitrate-IsSorted :
    (q : TxQueue) (frame : CanFrame) (qos : ℕ)
    → IsSorted q.queue
    → IsSorted (arbitrate q frame qos).1.queue
unfolding arbitrate allocate_entry free_entry register_rejected_frame
arbitrate-IsSorted q frame qos s = elim (List-cases q.queue) [
  | inl empty ↦ rw empty (subst IsSorted empty s)
  | inr (p, ps, e) ↦
      let r = lowest_qos 0 p 0 (p ∷ ps) in
      let whole = subst IsSorted e s in
      elim (Bool-cases (qos_higher_than r.1 frame qos)) [
        | inl t ↦ rw (e, t) whole
        | inr f ↦ rw (e, f) (unlink-IsSorted (p ∷ ps) r.0 whole)
      ]
]

-- `push` keeps the queue in the order of arbitration, also where it makes room by dropping expired
-- frames or the one of lowest QoS.
pub push-IsSorted :
    (now : ℕ) (q : TxQueue) (frame : CanFrame) (deadline qos flags : ℕ)
    → IsSorted q.queue
    → IsSorted (push now q frame deadline qos flags).queue
unfolding push allocate_entry register_rejected_frame
push-IsSorted now q frame deadline qos flags s =
    let q1 = (allocate_entry q).1 in
    let q2 = (allocate_entry (cleanup now q1)).1 in
    let s2 : IsSorted q2.queue = cleanup-IsSorted now q1 s in
    elim (Bool-cases (leb deadline now)) [
      | inl t ↦ rw t s
      | inr f ↦ elim (Option-cases (allocate_entry q).0) [
        | inr (b, e) ↦ rw (f, e) (enqueue-IsSorted q1 b frame deadline qos flags s)
        | inl e ↦ elim (Option-cases (allocate_entry (cleanup now q1)).0) [
          | inr (b, e') ↦ rw (f, e, e') (enqueue-IsSorted q2 b frame deadline qos flags s2)
          | inl e' ↦
              let s3 = arbitrate-IsSorted q2 frame qos s2 in
              elim (Option-cases (arbitrate q2 frame qos).0) [
                | inr (b, e'') ↦
                    rw (f, e, e', e'')
                      (enqueue-IsSorted (arbitrate q2 frame qos).1 b frame deadline qos flags s3)
                | inl e'' ↦ rw (f, e, e', e'') s3
              ]
        ]
      ]
    ]

peek_from-highest :
    (now : ℕ) (xs : List Entry) (q : TxQueue) (e : Entry)
    → IsSorted xs
    → (peek_from now xs q).0 ≡ some e
    → (is_expired now e ≡ false)
      × ((es : List Entry) × ((peek_from now xs q).1.queue ≡ e ∷ es) × IsSorted (e ∷ es))
unfolding peek_from IsSorted
peek_from-highest now [] q e s = λ h. absurd (ground arith)
peek_from-highest now (x ∷ xs) q e s =
    let q' = free_entry x (register_rejected_frame q) in
    elim (Bool-cases (is_expired now x)) [
      | inl t ↦ rw t (peek_from-highest now xs q' e s.1)
      | inr f ↦ rw f (λ h.
          let same : x ≡ e = ground arith in
          (
            ap (is_expired now) (sym same) ∙ f,
            (xs, ap (λ y. y ∷ xs) same, subst (λ y. IsSorted (y ∷ xs)) same s),
          ))
    ]

-- The frame that `peek` gives is not expired, and it is the first of a queue that is in order.
pub peek-highest :
    (now : ℕ) (q : TxQueue) (e : Entry)
    → IsSorted q.queue
    → (peek now q).0 ≡ some e
    → (is_expired now e ≡ false)
      × ((es : List Entry) × ((peek now q).1.queue ≡ e ∷ es) × IsSorted (e ∷ es))
unfolding peek
peek-highest now q e s h = peek_from-highest now q.queue q e s h

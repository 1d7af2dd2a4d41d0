-- ===== src/Disklabel/Valid.antt =====
-- The labels that the commands keep: the arrays have their lengths, the magic numbers are set, there are
-- at most 8 partitions, and behind them none has a size.
pub mod Commands
use mac_fdisk.Base.{
  ℕ, zero, suc, ◌+◌, ◌≡◌, ◌≢◌, ◌≤◌, ◌<◌, refl, sym, ap, ◌∙◌, arith, subst, Bool, true, false,
  Option, none, some, List, [], ◌∷◌, ◌==◌, ==_iff, ltb, leb, if◌then◌else◌, get_elem?, set, length,
  All, Bool-cases, Option-cases, inl, inr,
}
use mac_fdisk.Disklabel.{Disklabel, BsdPartition, bsd_maxpartitions, bsd_diskmagic}
use mac_fdisk.Disklabel.Words.Back.{IsLaidOut, HasByteType}
use mac_fdisk.Disklabel.Edit.{last_used, emptied, removed, with_partition, claimed}
use mac_fdisk.Disklabel.Area.{has_magic}

abbrev pub size_or : Option BsdPartition → ℕ
size_or none = 0
size_or (some p) = p.p_size

abbrev pub size_at : List BsdPartition → ℕ → ℕ
size_at l i = size_or (get_elem? l i)

pub record IsValid (d : Disklabel) : Type 0 where
  pub laid : IsLaidOut d
  pub magic : has_magic d ≡ true
  pub few : d.d_npartitions ≤ bsd_maxpartitions
  pub beyond : (i : ℕ) → d.d_npartitions ≤ i → size_at d.d_partitions i ≡ 0

length-set : (l : List BsdPartition) (i : ℕ) (x : BsdPartition) → length (set l i x) ≡ length l
length-set [] i x = refl
length-set (p ∷ l) zero x = refl
length-set (p ∷ l) (suc i) x = omega (arith, length-set l i x)

types-set :
    (l : List BsdPartition) (i : ℕ) (x : BsdPartition)
    → All HasByteType l
    → HasByteType x
    → All HasByteType (set l i x)
types-set [] i x h k = tt
types-set (p ∷ l) zero x h k = (k, h.1)
types-set (p ∷ l) (suc i) x h k = (h.0, types-set l i x h.1 k)

size_at-set :
    (l : List BsdPartition) (i j : ℕ) (x : BsdPartition)
    → i ≢ j
    → size_at (set l i x) j ≡ size_at l j
size_at-set [] i j x h = refl
size_at-set (p ∷ l) zero zero x h = absurd (h refl)
size_at-set (p ∷ l) zero (suc j) x h = refl
size_at-set (p ∷ l) (suc i) zero x h = refl
size_at-set (p ∷ l) (suc i) (suc j) x h = size_at-set l i j x (λ e. h (ap suc e))

size_at-set_self :
    (l : List BsdPartition) (i : ℕ) (x : BsdPartition) → size_at (set l i x) i ≤ x.p_size
size_at-set_self [] i x = omega arith
size_at-set_self (p ∷ l) zero x = omega arith
size_at-set_self (p ∷ l) (suc i) x = size_at-set_self l i x

HasByteType-get :
    (l : List BsdPartition) (i : ℕ) (p : BsdPartition)
    → All HasByteType l
    → get_elem? l i ≡ some p
    → HasByteType p
HasByteType-get [] i p h e = absurd (cc e)
HasByteType-get (q ∷ l) zero p h e = ground (arith, h.0)
HasByteType-get (q ∷ l) (suc i) p h e = HasByteType-get l i p h.1 e

-- A change of the table and the count that keeps the rest.
module _ (d : Disklabel) (valid : IsValid d) (n : ℕ) (l : List BsdPartition) where
  pub changed-IsValid :
      length l ≡ 8
      → All HasByteType l
      → n ≤ bsd_maxpartitions
      → ((i : ℕ) → n ≤ i → size_at l i ≡ 0)
      → IsValid (record d { d_npartitions = n; d_partitions = l })
  unfolding has_magic
  changed-IsValid full types few beyond = record {
    laid = record {
      typename = valid.laid.typename;
      packname = valid.laid.packname;
      drivedata = valid.laid.drivedata;
      spare = valid.laid.spare;
      partitions = full;
      types = types;
    };
    magic = valid.magic;
    few = few;
    beyond = beyond;
  }

  changed_to :
      (e : Disklabel)
      → some (record d { d_npartitions = n; d_partitions = l }) ≡ some e
      → IsValid (record d { d_npartitions = n; d_partitions = l })
      → IsValid e
  changed_to e h = subst IsValid (cc h)

last_used-beyond :
    (d : Disklabel) (l : List BsdPartition) (n m : ℕ)
    → last_used d l n ≡ some m
    → (m ≤ n) × ((i : ℕ) → m ≤ i → i < n → size_at l i ≡ 0)
unfolding last_used
last_used-beyond d l zero m h = (ground (arith, h), λ i a b. absurd (omega arith))
last_used-beyond d l (suc n) m h = elim (Option-cases (get_elem? l n)) [
  | inl out ↦
      let fails : last_used d l (suc n) ≡ none = rw (last_used, out) refl in
      absurd (cc (sym fails ∙ h))
  | inr (p, at) ↦ elim (Bool-cases (p.p_size == 0)) [
    | inl empty ↦
        let step : last_used d l (suc n) ≡ last_used d l n = rw (last_used, at, empty) refl in
        let (le, rest) = last_used-beyond d l n m (sym step ∙ h) in
        let here : size_at l n ≡ 0 = ap size_or at ∙ (==_iff p.p_size 0).0 empty in
        (
          omega arith,
          λ i a b. elim (Bool-cases (i == n)) [
            | inl top ↦ ap (size_at l) ((==_iff i n).0 top) ∙ here
            | inr low ↦ rest i a (ground (arith, low))
          ],
        )
    | inr used ↦
        let stops : last_used d l (suc n) ≡ some (suc n) = rw (last_used, at, used) refl in
        let top : suc n ≡ m = cc (sym stops ∙ h) in (omega arith, λ i a b. absurd (omega arith))
  ]
]

abbrev label_or : Disklabel → Option (Disklabel × Bool) → Disklabel
label_or d none = d
label_or d (some (e, b)) = e

abbrev pub Keeps : (BsdPartition → BsdPartition) → Type 0
Keeps f = (p : BsdPartition) → HasByteType p → HasByteType (f p)

module _ (d e : Disklabel) (valid : IsValid d) (i : ℕ) where
  set_beyond :
      (x : BsdPartition)
      → i < d.d_npartitions
      → (j : ℕ) → d.d_npartitions ≤ j
      → size_at (set d.d_partitions i x) j ≡ 0
  set_beyond x within j behind =
      size_at-set d.d_partitions i j x (λ e. omega arith) ∙ valid.beyond j behind

  pub with_partition-IsValid :
      (f : BsdPartition → BsdPartition)
      → Keeps f
      → i < d.d_npartitions
      → with_partition i f d ≡ some e
      → IsValid e
  unfolding with_partition
  with_partition-IsValid f keeps within h = elim (Option-cases (get_elem? d.d_partitions i)) [
    | inl out ↦
        let fails : with_partition i f d ≡ none = rw (with_partition, out) refl in
        absurd (cc (sym fails ∙ h))
    | inr (p, at) ↦
        let l = set d.d_partitions i (f p) in
        let is : with_partition i f d ≡ some (record d { d_partitions = l }) =
          rw (with_partition, at) refl in
        changed_to d valid d.d_npartitions l e (sym is ∙ h) (
          changed-IsValid d valid d.d_npartitions l
            (length-set d.d_partitions i (f p) ∙ valid.laid.partitions)
            (types-set d.d_partitions i (f p) valid.laid.types
              (keeps p (HasByteType-get d.d_partitions i p valid.laid.types at)))
            valid.few (set_beyond (f p) within))
  ]

  pub removed-IsValid : i < d.d_npartitions → removed i d ≡ some e → IsValid e
  unfolding removed
  removed-IsValid within h = elim (Option-cases (get_elem? d.d_partitions i)) [
    | inl out ↦
        let fails : removed i d ≡ none = rw (removed, out) refl in absurd (cc (sym fails ∙ h))
    | inr (p, at) ↦
        let l = set d.d_partitions i (emptied p) in
        let full = length-set d.d_partitions i (emptied p) ∙ valid.laid.partitions in
        let types = types-set d.d_partitions i (emptied p) valid.laid.types (omega arith) in
        let beyond = set_beyond (emptied p) within in
        elim (Bool-cases (d.d_npartitions == i + 1)) [
          | inr below ↦
              let is : removed i d ≡ some (record d { d_partitions = l }) =
                rw (removed, at, below) refl in
              changed_to d valid d.d_npartitions l e (sym is ∙ h)
                (changed-IsValid d valid d.d_npartitions l full types valid.few beyond)
          | inl highest ↦
              let top : d.d_npartitions ≡ i + 1 = (==_iff d.d_npartitions (i + 1)).0 highest in
              elim (Option-cases (last_used d l (i + 1))) [
                | inl fails ↦
                    let fails : removed i d ≡ none = rw (removed, at, highest, fails) refl in
                    absurd (cc (sym fails ∙ h))
                | inr (n, found) ↦
                    let is : removed i d ≡ some (record d { d_npartitions = n; d_partitions = l }) =
                      rw (removed, at, highest, found) refl in
                    let (le, between) = last_used-beyond d l (i + 1) n found in
                    changed_to d valid n l e (sym is ∙ h) (
                      changed-IsValid d valid n l full types (omega (arith, valid.few)) (λ j behind.
                        elim (Bool-cases (ltb j (i + 1))) [
                          | inl inside ↦ between j behind (ground (arith, inside))
                          | inr outside ↦ beyond j (ground (arith, outside, top))
                        ]))
              ]
        ]
  ]

  -- A partition for which `bsd_check_new_partition` returns.
  pub claimed-IsValid :
      (b : Bool)
      → i < bsd_maxpartitions
      → claimed i d ≡ some (e, b)
      → IsValid e × (i < e.d_npartitions)
  unfolding claimed
  claimed-IsValid b within h = elim (Option-cases (get_elem? d.d_partitions i)) [
    | inl out ↦ absurd (ground (arith, out, h))
    | inr (p, at) ↦ elim (Bool-cases (leb d.d_npartitions i)) [
      | inl more ↦
          let grown = record d { d_npartitions = i + 1 } in
          let is : claimed i d ≡ some (grown, p.p_size == 0) = rw (claimed, more, at, more) refl in
          let same : grown ≡ e = ap (label_or d) (sym is ∙ h) in
          let kept =
            changed-IsValid d valid (i + 1) d.d_partitions valid.laid.partitions valid.laid.types
              (omega arith) (λ j behind. valid.beyond j (ground (arith, more))) in
          (
            subst IsValid same kept,
            subst (λ (x : Disklabel). i < x.d_npartitions) same (omega arith),
          )
      | inr fewer ↦
          let is : claimed i d ≡ some (d, p.p_size == 0) = rw (claimed, fewer, at, fewer) refl in
          let same : d ≡ e = ap (label_or d) (sym is ∙ h) in
          (
            subst IsValid same valid,
            subst (λ (x : Disklabel). i < x.d_npartitions) same (ground (arith, fewer)),
          )
    ]
  ]

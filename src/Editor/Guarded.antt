-- ===== src/Editor/Guarded.antt =====
-- Steps of a round of the command loops that leave the device alone, or after which a predicate
-- holds of it.
use mac_fdisk.Base.{
  ◌≡◌, ◌⊎◌, inl, inr, refl, arith, Bool, true, false, ◌&&◌, not, Option, none, some, if◌then◌else◌,
  sym, ◌∙◌, subst,
}
use mac_fdisk.Io.{Input}
use mac_fdisk.PartitionMap.State.{PartitionMapHeader}
use mac_fdisk.Commands.{Session}
use mac_fdisk.Editor.{Editor, updated, initialized, left_with}

-- The device is as it was, or `C` holds of it.
abbrev pub Guarded : {D : Type 0} → (D → Type 0) → Editor D → Option (Editor D) → Type 0
Guarded {D = D} C s r = (t : Editor D) → r ≡ some t → (t.device ≡ s.device) ⊎ C t.device

pub and_left : (a b : Bool) → (a && b) ≡ true → a ≡ true
and_left true b h = refl
and_left false b h = h

pub and_not : (a b : Bool) → (a && not b) ≡ true → b ≡ false
and_not true false h = refl
and_not true true h = cc
and_not false b h = cc

module _ {D : Type 0} (C : D → Type 0) (s : Editor D) where
  pub Guarded-if :
      (b : Bool) (x y : Option (Editor D))
      → Guarded C s x
      → Guarded C s y
      → Guarded C s (if b then x else y)
  Guarded-if true x y f g = f
  Guarded-if false x y f g = g

  pub Guarded-when :
      (b : Bool) (x y : Option (Editor D))
      → (b ≡ true → Guarded C s x)
      → Guarded C s y
      → Guarded C s (if b then x else y)
  Guarded-when true x y f g = f refl
  Guarded-when false x y f g = g

  pub Guarded-unless :
      (b : Bool) (x y : Option (Editor D))
      → Guarded C s x
      → (b ≡ true → Guarded C s y)
      → Guarded C s (if not b then x else y)
  Guarded-unless true x y f g = g refl
  Guarded-unless false x y f g = f

  pub Guarded-as : (r x : Option (Editor D)) → r ≡ x → Guarded C s x → Guarded C s r
  Guarded-as r x e g t h = g t (sym e ∙ h)

  pub Guarded-same : (u : Editor D) → u.device ≡ s.device → Guarded C s (some u)
  Guarded-same u same t e = inl (ground arith)

  pub Guarded-none : Guarded C s none
  Guarded-none t e = cc

  pub Guarded-updated : (o : Option (Unit {0} × Session)) → Guarded C s (updated s o)
  Guarded-updated none = Guarded-none
  Guarded-updated (some (_, t)) = Guarded-same (record s { session = t }) refl

  pub Guarded-initialized :
      (o : Option (Option PartitionMapHeader × Input)) → Guarded C s (initialized s o)
  Guarded-initialized none = Guarded-none
  Guarded-initialized (some (m, k)) =
      Guarded-same (record s { session = record { map = m; keys = k } }) refl

  pub Guarded-left :
      (expert finished : Bool) (o : Option Input) → Guarded C s (left_with s expert finished o)
  Guarded-left expert finished none = Guarded-none
  Guarded-left expert finished (some k) =
      Guarded-same
        (record s { session = record s.session { keys = k }; expert = expert; finished = finished })
        refl

-- What `save` does with the outcome of the write.
abbrev pub saved :
    {D : Type 0} → Input → Editor D → Option (D × PartitionMapHeader) → Option (Editor D)
saved k s none = none
saved k s (some (d, n)) =
    some (record s { session = record { map = some n; keys = k }; device = d })

pub saved-Guarded :
    {D : Type 0} (C : D → Type 0) (s : Editor D) (r : Input) (o : Option (D × PartitionMapHeader))
    → ((d : D) (n : PartitionMapHeader) → o ≡ some (d, n) → C d)
    → Guarded C s (saved r s o)
saved-Guarded C s r none consent t e = cc
saved-Guarded C s r (some (d, n)) consent t e =
    let same : d ≡ t.device = ground arith in inr (subst C same (consent d n refl))

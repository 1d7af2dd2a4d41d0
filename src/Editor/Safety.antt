-- ===== src/Editor/Safety.antt =====
-- When the commands of `edit` and `do_expert` leave the device alone.
use mac_fdisk.Base.{
  ℕ, ◌≡◌, ◌⊎◌, inl, inr, refl, Bool, true, false, ◌&&◌, ◌||◌, not, Option, none, some,
  if◌then◌else◌, Option-cases, ◌==◌, ap, ◌∙◌,
}
use mac_fdisk.Io.{Input, Answer, get_okay, get_command}
use mac_fdisk.Dpme.{Block0}
use mac_fdisk.Convert.{ByteOrder}
use mac_fdisk.PartitionMap.State.{PartitionMapHeader}
use mac_fdisk.Disk.{Device, write_partition_map}
use mac_fdisk.Commands.{bad_input}
use mac_fdisk.Editor.{
  Editor, letter, save, answered, write_checked, dispatch, do_write_partition_map, edit_command,
  expert_command, round, run,
}
use mac_fdisk.Editor.Guarded.{
  Guarded, and_left, and_not, saved, saved-Guarded, Guarded-if, Guarded-when, Guarded-unless,
  Guarded-as, Guarded-same, Guarded-none, Guarded-updated, Guarded-initialized, Guarded-left,
}

-- The command `command` was `w`, the program may write, there is a changed and writeable map, the
-- answer in the input `keys` behind the command is yes, and that map was written.
pub record Consented {D B : Type 0} (dev : Device D B) (malloc : ℕ → Bool) (order : ByteOrder)
    (rflag : Bool) (map : Option PartitionMapHeader) (command : Option ℕ) (keys : Input)
    (before after : D) : Type 0 where
  pub typed : ℕ
  pub current : PartitionMapHeader
  pub rest : Input
  pub kept : PartitionMapHeader
  pub asked : command ≡ some typed
  pub asks_to_write : letter 87 119 typed ≡ true
  pub may_write : rflag ≡ false
  pub edited : map ≡ some current
  pub changed : current.changed ≡ true
  pub writeable : current.writeable ≡ true
  pub answered : get_okay keys ≡ some (Answer.okay, rest)
  pub written : write_partition_map dev malloc order rflag before current ≡ some (after, kept)

module _ {D B : Type 0} (dev : Device D B) (malloc room : ℕ → Bool) (order : ByteOrder)
    (rflag dflag : Bool) where
  save-okay :
      (s : Editor D) (m : PartitionMapHeader) (r : Input)
      → save dev malloc room order rflag dflag Answer.okay r m s
        ≡ saved r s (write_partition_map dev malloc order rflag s.device m)
  unfolding save
  save-okay s m r = elim (Option-cases (write_partition_map dev malloc order rflag s.device m)) [
    | inl fails ↦ rw (save, fails) refl
    | inr (_, done) ↦ rw (save, done) refl
  ]

  module _ (command : Option ℕ) (c : ℕ) (is : command ≡ some c) (s : Editor D) where
    -- What has to be so where the device of `s` has become another one.
    abbrev C : D → Type 0
    C = Consented dev malloc order rflag s.session.map command s.session.keys s.device

    Guarded-save :
        (m : PartitionMapHeader) (r : Input) (a : Answer)
        → (a ≡ Answer.okay
            → (d : D) (n : PartitionMapHeader)
            → write_partition_map dev malloc order rflag s.device m ≡ some (d, n)
            → C d)
        → Guarded C s (save dev malloc room order rflag dflag a r m s)
    unfolding save
    Guarded-save m r Answer.okay consent =
        Guarded-as C s _ _ (save-okay s m r) (
          saved-Guarded C s r (write_partition_map dev malloc order rflag s.device m)
            (consent refl))
    Guarded-save m r Answer.not_okay consent =
        Guarded-same C s (record s { session = record { map = some m; keys = r } }) refl
    Guarded-save m r Answer.by_default consent =
        Guarded-same C s (record s { session = record { map = some m; keys = r } }) refl
    Guarded-save m r Answer.ended consent =
        Guarded-same C s (record s { session = record { map = some m; keys = r } }) refl

    Guarded-answered :
        (m : PartitionMapHeader)
        → letter 87 119 c ≡ true
        → rflag ≡ false
        → s.session.map ≡ some m
        → m.changed ≡ true
        → m.writeable ≡ true
        → (o : Option (Answer × Input)) → get_okay s.session.keys ≡ o
        → Guarded C s (answered dev malloc room order rflag dflag m s o)
    unfolding answered
    Guarded-answered m w free found changed writeable none e = Guarded-none C s
    Guarded-answered m w free found changed writeable (some (a, r)) e =
        Guarded-save m r a λ yes d n done. record {
          typed = c;
          current = m;
          rest = r;
          kept = n;
          asked = is;
          asks_to_write = w;
          may_write = free;
          edited = found;
          changed = changed;
          writeable = writeable;
          answered = e ∙ ap (λ (b : Answer). some (b, r)) yes;
          written = done;
        }

    Guarded-checked :
        (m : PartitionMapHeader)
        → letter 87 119 c ≡ true
        → rflag ≡ false
        → s.session.map ≡ some m
        → Guarded C s (write_checked dev malloc room order rflag dflag m s)
    unfolding write_checked
    Guarded-checked m w free found =
        Guarded-unless C s m.changed _ _ (Guarded-updated C s _) λ changed.
          Guarded-unless C s m.writeable _ _ (Guarded-updated C s _)
            λ writeable. Guarded-answered m w free found changed writeable _ refl

    Guarded-write :
        letter 87 119 c ≡ true
        → rflag ≡ false
        → Guarded C s (do_write_partition_map dev malloc room order rflag dflag s)
    Guarded-write w free = elim (Option-cases s.session.map) [
      | inl nothing ↦
          Guarded-as C s _ (run dev malloc room order rflag dflag bad_input s)
            (unfold do_write_partition_map in rw nothing) (Guarded-updated C s _)
      | inr (m, found) ↦
          Guarded-as C s _ (write_checked dev malloc room order rflag dflag m s)
            (unfold do_write_partition_map in rw found) (Guarded-checked m w free found)
    ]

    module _ (regular_file : Bool) (garbage : Block0) where
      Guarded-edit :
          Guarded C s (edit_command dev malloc room order rflag dflag regular_file garbage c s)
      unfolding edit_command
      Guarded-edit =
          Guarded-if C s ((c == 63) || (letter 72 104 c || letter 80 112 c)) _ _
            (Guarded-same C s s refl)
            (Guarded-if C s (letter 81 113 c) _ _ (Guarded-left C s false true _) (
              Guarded-if C s (letter 73 105 c) _ _ (Guarded-initialized C s _) (
                Guarded-if C s (letter 66 98 c) _ _ (Guarded-updated C s _) (
                  Guarded-if C s (letter 67 99 c) _ _ (Guarded-updated C s _) (
                    Guarded-if C s (letter 68 100 c) _ _ (Guarded-updated C s _) (
                      Guarded-if C s (letter 82 114 c) _ _ (Guarded-updated C s _) (
                        Guarded-if C s (letter 83 115 c) _ _ (Guarded-updated C s _) (
                          Guarded-if C s (letter 88 120 c && dflag) _ _ (Guarded-same C s _ refl) (
                            Guarded-when C s (letter 87 119 c && not rflag) _ _
                              (λ h.
                                Guarded-write (and_left (letter 87 119 c) _ h)
                                  (and_not (letter 87 119 c) rflag h))
                              (Guarded-updated C s _))))))))))

      Guarded-expert :
          Guarded C s (expert_command dev malloc room order rflag dflag regular_file garbage c s)
      unfolding expert_command
      Guarded-expert =
          Guarded-if C s ((c == 63) || (letter 72 104 c || letter 80 112 c)) _ _
            (Guarded-same C s s refl)
            (Guarded-if C s (letter 88 120 c) _ _ (Guarded-left C s false false _) (
              Guarded-if C s (letter 81 113 c) _ _ (Guarded-left C s false true _) (
                Guarded-if C s (letter 83 115 c) _ _ (Guarded-updated C s _) (
                  Guarded-when C s (letter 87 119 c && not rflag) _ _
                    (λ h.
                      Guarded-write (and_left (letter 87 119 c) _ h)
                        (and_not (letter 87 119 c) rflag h))
                    (Guarded-updated C s _)))))

  module _ (regular_file : Bool) (garbage : Block0) (s : Editor D) where
    abbrev C' : Option ℕ → D → Type 0
    C' command = Consented dev malloc order rflag s.session.map command s.session.keys s.device

    Guarded-end :
        (expert : Bool)
        → Guarded
            (C' none)
            s
            (some (if expert then record s { expert = false } else record s { finished = true }))
    Guarded-end true = Guarded-same (C' none) s (record s { expert = false }) refl
    Guarded-end false = Guarded-same (C' none) s (record s { finished = true }) refl

    Guarded-dispatch :
        (o : Option ℕ)
        → Guarded (C' o) s (dispatch dev malloc room order rflag dflag regular_file garbage o s)
    unfolding dispatch
    Guarded-dispatch none = Guarded-end s.expert
    Guarded-dispatch (some c) =
        Guarded-if (C' (some c)) s s.expert _ _
          (Guarded-expert (some c) c refl s regular_file garbage)
          (Guarded-edit (some c) c refl s regular_file garbage)

-- One round of the command loops: the device is as it was, unless the command that was read is `w`,
-- the program runs without `-r`, there is a map that was changed and is writeable, the answer that
-- stands behind the command in the input is yes, and the device is what `write_partition_map` makes of
-- it with that map.
pub round-Consented :
    {D B : Type 0} (dev : Device D B) (malloc room : ℕ → Bool) (order : ByteOrder)
    (rflag dflag regular_file : Bool) (garbage : Block0) (s t : Editor D)
    → round dev malloc room order rflag dflag regular_file garbage s ≡ some t
    → (t.device ≡ s.device)
      ⊎ Consented dev malloc order rflag s.session.map
          (get_command s.session.keys).0
          (get_command s.session.keys).1
          s.device
          t.device
unfolding round
round-Consented dev malloc room order rflag dflag regular_file garbage s t e =
    let k = (get_command s.session.keys).1 in
    Guarded-dispatch dev malloc room order rflag dflag regular_file garbage
      (record s { session = record s.session { keys = k } }) (get_command s.session.keys).0 t e

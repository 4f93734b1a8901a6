-- ===== src/Builtin/Authority/Updating.antt =====
-- What a change of a candidate's status does to the list of masters.
use rmit.Prelude.{
  ℕ, ◌≡◌, ◌⊎◌, refl, Bool, none, List, inl, inr, number_key, nat_beq, Bool-cases, sym, ap, ◌∙◌,
}
use rmit.Builtin.Authority.{Entry, Authority, is_linked, get_entry, set_entry, update_active}
use rmit.Builtin.Authority.Segments
use rmit.Builtin.Authority.Listing.{Lists, get_entry_changed}

abbrev activated : ℕ → Bool → Authority → Authority
activated master active a = set_entry master (record (get_entry a master) { active = active }) a

abbrev with_active : Bool → Entry → Entry
with_active active e = record e { active = active }

module _ (master : ℕ) (active : Bool) (a : Authority) (x : ℕ) where
  get_activated :
      (get_entry (activated master active a) x ≡ get_entry a x)
      ⊎ (get_entry (activated master active a) x ≡ with_active active (get_entry a x))
  get_activated =
      let change = get_entry_changed (with_active active) master a x in
      elim (Bool-cases (nat_beq master x)) [
        | inl here ↦ inr (change ∙ rw here refl)
        | inr off ↦ inl (change ∙ rw off refl)
      ]

  prev_kept : (get_entry (activated master active a) x).prev ≡ (get_entry a x).prev
  prev_kept = elim get_activated [ inl e ↦ ap (λ e. e.prev) e | inr e ↦ ap (λ e. e.prev) e ]

  next_kept : (get_entry (activated master active a) x).next ≡ (get_entry a x).next
  next_kept = elim get_activated [ inl e ↦ ap (λ e. e.next) e | inr e ↦ ap (λ e. e.next) e ]

  endorsor_kept : (get_entry (activated master active a) x).endorsor ≡ (get_entry a x).endorsor
  endorsor_kept = elim get_activated [
    | inl e ↦ ap (λ e. e.endorsor) e
    | inr e ↦ ap (λ e. e.endorsor) e
  ]

  linked_kept : is_linked (get_entry (activated master active a) x) ≡ is_linked (get_entry a x)
  unfolding is_linked
  linked_kept = rw prev_kept (rw next_kept refl)

activated-Lists :
    (master : ℕ) (active : Bool) (a : Authority) (xs : List ℕ)
    → Lists a xs
    → Lists (activated master active a) xs
unfolding set_entry
activated-Lists master active a xs l = record {
  head_is = l.head_is;
  tail_is = l.tail_is;
  linked =
      Segments.Segment-links (get_entry a) (get_entry (activated master active a)) none xs none
        (λ x m. prev_kept master active a x) (λ x m. next_kept master active a x) l.linked;
  distinct = l.distinct;
  endorsed = λ x m zero_is. l.endorsed x m (sym (endorsor_kept master active a x) ∙ zero_is);
  unlisted = λ x out. linked_kept master active a x ∙ l.unlisted x out;
}

-- `Update` keeps the list of masters that a storage stands for.
pub update_active-Lists :
    (a : Authority) (xs : List ℕ) (master : ℕ) (active : Bool)
    → Lists a xs
    → Lists (update_active a master active).0 xs
unfolding update_active
update_active-Lists a xs master active l = elim (Bool-cases (is_linked (get_entry a master))) [
  | inl on ↦ rw on (activated-Lists master active a xs l)
  | inr off ↦ rw off l
]

-- ===== src/Fleet/Membership.antt =====
-- Who is a member of a fleet (fleet-service).
use nexora_platform.Prelude.{
  ◌≤◌, ◌≡◌, refl, String, false, ◌||◌, Option, List, [], ◌∷◌, any, count, count-append, arith,
  Bool-cases, inl, inr, ◌==◌, eq_iff,
}
use nexora_platform.Prelude.Text.{Field}
use nexora_platform.Prelude.Action.{modify}
use nexora_platform.Prelude.Action.Along.{
  Preorder, Along, Along-pure, Along-bind, Along-gets, Along-modify, Along-or_raise, Along-raise_if,
}
use nexora_platform.Fleet.{
  Fleet, FleetMember, FleetPayload, FleetError, User, Registry, Outside, draw, publish, audit,
  visible_fleet, is_member, drop_member, insert_fleet, insert_member, create_fleet, update_fleet,
  delete_fleet, add_fleet_member, remove_fleet_member,
}

-- A registry in which no device is twice in a fleet is followed by another one.
pub record Keeps (s t : Registry) : Type 0 where
  pub unique :
      (f d : String) → count (is_member f d) s.members ≤ 1 → count (is_member f d) t.members ≤ 1

Keeps-Preorder : Preorder Keeps
Keeps-Preorder = record {
  here = λ s. record { unique = λ f d h. h };
  after = λ s t u h g. record { unique = λ f d x. g.unique f d (h.unique f d x) };
}

count-drop_member :
    (f d g e : String) (l : List FleetMember)
    → count (is_member f d) (drop_member g e l) ≤ count (is_member f d) l
count-drop_member f d g e [] = omega arith
count-drop_member f d g e (m ∷ l) = ground (arith, count-drop_member f d g e l)

count-free :
    (id f d : String) (l : List FleetMember)
    → any (λ x. x.id == id || is_member f d x) l ≡ false
    → count (is_member f d) l ≡ 0
count-free id f d [] h = refl
count-free id f d (x ∷ l) h = ground (arith, h, count-free id f d l)

insert_member-Along : (m : FleetMember) → Along Keeps (insert_member m)
unfolding insert_member
insert_member-Along m = record { at = go }
  where
    go : (w : Registry) → Keeps w (insert_member m w).1
    go w =
        elim (Bool-cases
          (any (λ x. x.id == m.id || is_member m.fleet_id m.device_id x) w.members)) [
            | inl taken ↦ rw taken (Keeps-Preorder.here w)
            | inr free ↦ rw free (record {
              unique = λ f d h.
                  rw (count-append (is_member f d) w.members (m ∷ []))
                    (elim (Bool-cases (is_member f d m)) [
                      | inl mine ↦
                          let at_f : m.fleet_id ≡ f = ground (arith, mine, eq_iff m.fleet_id f) in
                          let at_d : m.device_id ≡ d = ground (arith, mine, eq_iff m.device_id d) in
                          let none_yet : count (is_member f d) w.members ≡ 0 =
                            count-free m.id f d w.members (rw (← at_f, ← at_d) free) in
                          ground (arith, mine, none_yet)
                      | inr other ↦ ground (arith, other, h)
                    ]);
            })
          ]

insert_fleet-Along : (f : Fleet) → Along Keeps (insert_fleet f)
insert_fleet-Along f = record { at = go }
  where
    go : (w : Registry) → Keeps w (insert_fleet f w).1
    go w = elim (Bool-cases (any (λ x. x.id == f.id) w.fleets)) [
      | inl taken ↦ rw taken (Keeps-Preorder.here w)
      | inr free ↦ rw free (record { unique = λ f d h. h })
    ]

draw-Along : (ext : Outside) → Along Keeps (draw ext)
unfolding draw
draw-Along ext = record { at = λ w. record { unique = λ f d h. h } }

audit-Along :
    (action id : String) (tenant : Option String) (u : User) (reason : Option String)
    → Along Keeps (audit action id tenant u reason)
unfolding audit
audit-Along action id tenant u reason = record { at = λ w. record { unique = λ f d h. h } }

publish-Along :
    (ext : Outside) (action id : String) (p : FleetPayload) → Along Keeps (publish ext action id p)
unfolding publish
publish-Along ext action id p = record { at = λ w. record { unique = λ f d h. ground (arith, h) } }

fleets-Along :
    (f : Registry → List Fleet)
    → Along Keeps (modify {E = FleetError} (λ w. record w { fleets = f w }))
fleets-Along f = Along-modify Keeps Keeps-Preorder _ (λ w. record { unique = λ f d h. h })

members-Along :
    (g e : String)
    → Along Keeps (modify {E = FleetError} (λ w. record w { members = drop_member g e w.members }))
members-Along g e =
    Along-modify Keeps Keeps-Preorder _
      (λ w. record { unique = λ f d h. omega (arith, h, count-drop_member f d g e w.members) })

visible-Along : (id : String) (u : User) → Along Keeps (visible_fleet id u)
unfolding visible_fleet
visible-Along id u = search (
  Along-bind Keeps Keeps-Preorder,
  Along-gets Keeps Keeps-Preorder,
  Along-or_raise Keeps Keeps-Preorder,
  Along-raise_if Keeps Keeps-Preorder,
  Along-pure Keeps Keeps-Preorder,
)

-- Whatever the user may do, creating, changing and deleting fleets, and adding and removing members,
-- keep every device at most once in every fleet, whether the operation returns or raises.
pub members_unique :
    (ext : Outside) (user : User)
    → ((name : Field String) (description : Option String)
        → Along Keeps (create_fleet ext user name description))
      × ((id : String) (name description : Field String)
          → Along Keeps (update_fleet ext user id name description))
      × ((id : String) → Along Keeps (delete_fleet ext user id))
      × ((fleet_id : String) (device_id : Option String)
          → Along Keeps (add_fleet_member ext user fleet_id device_id))
      × ((fleet_id device_id : String)
          → Along Keeps (remove_fleet_member ext user fleet_id device_id))
unfolding create_fleet update_fleet delete_fleet add_fleet_member remove_fleet_member
members_unique ext user =
    let pre : Preorder Keeps = Keeps-Preorder in
    (
      (λ name description.
          search
            (
              Along-bind Keeps pre,
              draw-Along,
              Along-or_raise Keeps pre,
              insert_fleet-Along,
              audit-Along,
              publish-Along,
              Along-pure Keeps pre,
            )
            depth 12),
      (λ id name description.
          search
            (
              Along-bind Keeps pre,
              visible-Along,
              fleets-Along,
              audit-Along,
              publish-Along,
              Along-pure Keeps pre,
            )
            depth 12),
      (λ id.
          search (Along-bind Keeps pre, visible-Along, fleets-Along, audit-Along, publish-Along)
            depth 12),
      (λ fleet_id device_id.
          search
            (
              Along-bind Keeps pre,
              Along-raise_if Keeps pre,
              Along-or_raise Keeps pre,
              visible-Along,
              draw-Along,
              Along-gets Keeps pre,
              insert_member-Along,
              audit-Along,
              publish-Along,
              Along-pure Keeps pre,
            )
            depth 14),
      (λ fleet_id device_id.
          search
            (
              Along-bind Keeps pre,
              visible-Along,
              Along-gets Keeps pre,
              Along-raise_if Keeps pre,
              members-Along,
              audit-Along,
              publish-Along,
            )
            depth 12),
    )

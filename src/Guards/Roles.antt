-- ===== src/Guards/Roles.antt =====
-- apps/api-gateway/src/authz/guards: the roles of a user at an organisation, as the guards compute
-- them and as they are meant.
use ngotag_platform.Guards.{
  OrgRoleItem, includes, some_role, includes_held, some_role_held, belongs, selected_roles,
  filtered_roles, same_org,
}
use ngotag_platform.Common.{
  ◌≡◌, refl, Bool, true, false, ◌&&◌, ◌||◌, Option, none, some, List, [], ◌∷◌, String, str_eq,
  eq_iff, arith, Bool-cases, inl, inr,
}

str_eq_comm : (a b : String) → str_eq a b ≡ str_eq b a
str_eq_comm a b = let x = eq_iff a b in let y = eq_iff b a in ground arith

required_hole :
    (required : List String) (os : List (Option String))
    → some_role_held required (none ∷ os) ≡ some_role_held required os
unfolding some_role_held includes_held
required_hole [] os = refl
required_hole (r ∷ required) os = rw (required_hole required os) refl

required_some :
    (required : List String) (x : String) (os : List (Option String))
    → some_role_held required (some x ∷ os) ≡ (includes required x || some_role_held required os)
unfolding some_role_held includes_held includes
required_some [] x os = refl
required_some (r ∷ required) x os =
    let ih = required_some required x os in let e = str_eq_comm x r in ground arith

required_cons :
    (required : List String) (x : String) (xs : List String)
    → some_role required (x ∷ xs) ≡ (includes required x || some_role required xs)
unfolding some_role includes
required_cons [] x xs = refl
required_cons (r ∷ required) x xs =
    let ih = required_cons required x xs in let e = str_eq_comm x r in ground arith

nothing_held : (required : List String) → some_role_held required [] ≡ false
unfolding some_role_held includes_held
nothing_held [] = refl
nothing_held (r ∷ required) = nothing_held required

nothing_listed : (required : List String) → some_role required [] ≡ false
unfolding some_role includes
nothing_listed [] = refl
nothing_listed (r ∷ required) = nothing_listed required

module _ (trim : String → String) (is_uuid : String → Bool) where
  -- One of the user's rows is for the organisation and has a required role.
  abbrev pub holds_role : List String → String → List OrgRoleItem → Bool
  holds_role required org [] = false
  holds_role required org (i ∷ is) =
      (same_org trim is_uuid org i.org_id && includes required i.role) || holds_role required org is

  pub selected_roles_lem :
      (required : List String) (org : String) (items : List OrgRoleItem)
      → some_role_held required (selected_roles trim is_uuid org items)
        ≡ holds_role required org items
  unfolding selected_roles
  selected_roles_lem required org [] = nothing_held required
  selected_roles_lem required org (i ∷ is) =
      let ih = selected_roles_lem required org is in
      elim (Bool-cases (same_org trim is_uuid org i.org_id)) [
        | inl e ↦
            rw (e, required_some required i.role (selected_roles trim is_uuid org is), ih) refl
        | inr e ↦ rw (e, required_hole required (selected_roles trim is_uuid org is), ih) refl
      ]

  pub filtered_roles_lem :
      (required : List String) (org : String) (items : List OrgRoleItem)
      → some_role required (filtered_roles trim is_uuid org items) ≡ holds_role required org items
  unfolding filtered_roles
  filtered_roles_lem required org [] = nothing_listed required
  filtered_roles_lem required org (i ∷ is) =
      let ih = filtered_roles_lem required org is in
      elim (Bool-cases (same_org trim is_uuid org i.org_id)) [
        | inl e ↦
            rw (e, required_cons required i.role (filtered_roles trim is_uuid org is), ih) refl
        | inr e ↦ rw (e, ih) refl
      ]

  pub holds_role-belongs :
      (required : List String) (org : String) (items : List OrgRoleItem)
      → holds_role required org items ≡ true
      → belongs trim is_uuid org items ≡ true
  unfolding belongs
  holds_role-belongs required org [] h = h
  holds_role-belongs required org (i ∷ is) h = ground (arith, holds_role-belongs required org is)

-- ===== src/Onboarding/Linking.antt =====
-- apps/marketplace/src/marketplace.service.ts: what a history of onboarding requests can do.
use ngotag_platform.Onboarding.Repository.{Session, Repository as Store}
use ngotag_platform.Onboarding.{
  Refusal, already_linked, session_not_found, link_required, Result, done, refused, Owners, valid,
  get_valid_session, then_in, link_account_of, link_account, is_linked_to, link_subscription_to_org,
  owned_then, link_existing, created_then, link_created, link_organization_of, link_org,
}
use ngotag_platform.Onboarding.Identity.{
  is_buyer, buyer_only, bound, IsBound, caller, result_or, link_account_of-IsBound,
  link_subscription_to_org-IsBound,
}
use ngotag_platform.Common.Find.{among}
use ngotag_platform.Common.{
  ℕ, ◌≡◌, refl, sym, ap, ◌∙◌, Bool, true, false, Option, none, some, List, [], ◌∷◌, String, str_eq,
  eq_iff, ltb, arith, Bool-cases, Option-cases, inl, inr,
}

-- A request of a signed-in user at a time: to link the account, or to link an organisation that
-- exists or is created.
pub data Request : Type 0 where
  links_account : ℕ → String → String → Request
  links_org : ℕ → String → String → Bool → String → Request

module _ (store : Store) (lower : String → String) (email_of : String → Option String)
    (owners : Owners) (create : String → Option String) where
  open store use {Db, get_onboarding_session}

  unfoldable pub run_request : Db → Request → Db
  run_request d (links_account now id user) =
      result_or store lower email_of d
        (link_account store lower d now id (caller store lower email_of user))
  run_request d (links_org now id user existing text) =
      result_or store lower email_of d (
        link_org store lower owners create d now id (caller store lower email_of user) existing
          text)

  unfoldable pub run_requests : Db → List Request → Db
  run_requests d [] = d
  run_requests d (r ∷ rs) = run_requests (run_request d r) rs

  Bound : Db → Type 0
  Bound d = IsBound store lower email_of d

  IsKept : Db → Result Db → Type 0
  IsKept d r = Bound (result_or store lower email_of d r)

  in_session :
      (d : Db) (now : ℕ) (id : String) (f : Session → Result Db)
      → Bound d
      → ((s : Session) → get_onboarding_session d id ≡ some s → IsKept d (f s))
      → IsKept d (then_in store lower (get_valid_session store lower d now id) f)
  unfolding get_valid_session valid then_in IsKept Bound
  in_session d now id f b each = elim (Option-cases (get_onboarding_session d id)) [
    | inl e ↦ rw (e) b
    | inr (s, e) ↦ elim (Bool-cases (ltb s.expires_at now)) [
      | inl late ↦ rw (e, late) b
      | inr live ↦ rw (e, live) (each s e)
    ]
  ]

  owned_then-IsKept :
      (d : Db) (o : Option (List String)) (user : String) (r : Result Db)
      → Bound d
      → IsKept d r
      → IsKept d (owned_then store lower o user r)
  unfolding owned_then IsKept Bound
  owned_then-IsKept d none user r b k = b
  owned_then-IsKept d (some os) user r b k = elim (Bool-cases (among os user)) [
    | inl e ↦ rw (e) k
    | inr e ↦ rw (e) b
  ]

  link_existing-IsKept :
      (d : Db) (user : String) (s : Session) (org : String)
      → Bound d
      → IsKept d (link_existing store lower owners d (caller store lower email_of user) s org)
  unfolding link_existing IsKept Bound
  link_existing-IsKept d user s org b = elim (Bool-cases (str_eq org "")) [
    | inl e ↦ rw (e) b
    | inr e ↦ elim (Bool-cases (store.has_active_subscription d org s.subscription.id)) [
      | inl h ↦ rw (e, h) (owned_then-IsKept d (owners org) user (refused already_linked) b b)
      | inr h ↦
          rw (e, h)
            (owned_then-IsKept d (owners org) user (link_subscription_to_org store lower d s org) b
              (link_subscription_to_org-IsBound store lower email_of d s org b))
    ]
  ]

  created_then-IsKept :
      (d : Db) (s : Session) (o : Option String)
      → Bound d
      → IsKept d (created_then store lower d s o)
  unfolding created_then IsKept Bound
  created_then-IsKept d s none b = b
  created_then-IsKept d s (some org) b =
      link_subscription_to_org-IsBound store lower email_of d s org b

  link_created-IsKept :
      (d : Db) (s : Session) (name : String)
      → Bound d
      → IsKept d (link_created store lower create d s name)
  unfolding link_created IsKept Bound
  link_created-IsKept d s name b = elim (Bool-cases (str_eq name "")) [
    | inl e ↦ rw (e) b
    | inr e ↦ rw (e) (created_then-IsKept d s (create name) b)
  ]

  link_organization_of-IsKept :
      (d : Db) (user : String) (existing : Bool) (text : String) (s : Session)
      → Bound d
      → IsKept d (
          link_organization_of store lower owners create d
            (caller store lower email_of user)
            existing
            text
            s)
  unfolding link_organization_of IsKept Bound
  link_organization_of-IsKept d user existing text s b =
      elim (Bool-cases (is_linked_to store lower s.subscription.local_user_id user)) [
        | inl e ↦ elim (Bool-cases existing) [
          | inl k ↦ rw (e, k) (link_existing-IsKept d user s text b)
          | inr k ↦ rw (e, k) (link_created-IsKept d s text b)
        ]
        | inr e ↦ rw (e) b
      ]

  run_request-IsBound : (d : Db) (r : Request) → Bound d → Bound (run_request d r)
  unfolding run_request link_account link_org IsKept Bound
  run_request-IsBound d (links_account now id user) b =
      in_session d now id (link_account_of store lower d (caller store lower email_of user)) b
        (λ s e. link_account_of-IsBound store lower email_of d s user id e b)
  run_request-IsBound d (links_org now id user existing text) b =
      in_session d now id
        (link_organization_of store lower owners create d (caller store lower email_of user)
          existing text)
        b (λ s e. link_organization_of-IsKept d user existing text s b)

  run_requests-IsBound : (d : Db) (rs : List Request) → Bound d → Bound (run_requests d rs)
  unfolding run_requests
  run_requests-IsBound d [] b = b
  run_requests-IsBound d (r ∷ rs) b =
      run_requests-IsBound (run_request d r) rs (run_request-IsBound d r b)

  linked_buyer :
      (s : Session) (o : Option String) (user : String)
      → is_linked_to store lower o user ≡ true
      → buyer_only store lower email_of s.subscription o ≡ true
      → is_buyer store lower email_of s.subscription user ≡ true
  unfolding is_linked_to
  linked_buyer s none user k b = cc
  linked_buyer s (some l) user k b =
      let same = eq_iff l user in
      sym (ap (λ x. is_buyer store lower email_of s.subscription x) (same.0 (ground arith))) ∙ b

  done_refused : {A : Type 0} (r : Refusal) (a : A) → refused r ≡ done a → ⊥
  done_refused r a h = cc

  unlinked :
      (d : Db) (user : String) (existing : Bool) (text : String) (s : Session)
      → is_linked_to store lower s.subscription.local_user_id user ≡ false
      → link_organization_of store lower owners create d
          (caller store lower email_of user)
          existing
          text
          s
        ≡ refused link_required
  unfolding link_organization_of
  unlinked d user existing text s k = rw (k) refl

  lapsed :
      (now : ℕ) (s : Session) (f : Session → Result Db)
      → ltb s.expires_at now ≡ true
      → then_in store lower (valid store lower now (some s)) f ≡ refused session_not_found
  unfolding valid then_in
  lapsed now s f k = rw (k) refl

  current :
      (now : ℕ) (s : Session) (f : Session → Result Db)
      → ltb s.expires_at now ≡ false
      → then_in store lower (valid store lower now (some s)) f ≡ f s
  unfolding valid then_in
  current now s f k = rw (k) refl

  linking_buyer :
      (d e : Db) (user : String) (existing : Bool) (text : String) (s : Session)
      → link_organization_of store lower owners create d
          (caller store lower email_of user)
          existing
          text
          s
        ≡ done e
      → buyer_only store lower email_of s.subscription s.subscription.local_user_id ≡ true
      → is_buyer store lower email_of s.subscription user ≡ true
  unfolding link_organization_of
  linking_buyer d e user existing text s h b =
      elim (Bool-cases (is_linked_to store lower s.subscription.local_user_id user)) [
        | inl k ↦ linked_buyer s s.subscription.local_user_id user k b
        | inr k ↦
            absurd (done_refused link_required e (sym (unlinked d user existing text s k) ∙ h))
      ]

  found_buyer :
      (d e : Db) (now : ℕ) (user : String) (existing : Bool) (text : String) (o : Option Session)
      → then_in store lower (valid store lower now o) (
          link_organization_of store lower owners create d
            (caller store lower email_of user)
            existing
            text)
        ≡ done e
      → bound store lower email_of o ≡ true
      → (s : Session) × (o ≡ some s) × (is_buyer store lower email_of s.subscription user ≡ true)
  unfolding valid then_in
  found_buyer d e now user existing text none h b = absurd (done_refused session_not_found e h)
  found_buyer d e now user existing text (some s) h b =
      let f =
        link_organization_of store lower owners create d (caller store lower email_of user) existing
          text in
      elim (Bool-cases (ltb s.expires_at now)) [
        | inl k ↦ absurd (done_refused session_not_found e (sym (lapsed now s f k) ∙ h))
        | inr k ↦ (s, refl, linking_buyer d e user existing text s (sym (current now s f k) ∙ h) b)
      ]

  -- Whatever accounts and organisations are linked before, from a state in which every linked account
  -- is a buyer's: where a user's request to link an organisation succeeds, the user's own email is the
  -- purchaser's or the beneficiary's of the subscription of the session.
  pub link_org-is_buyer :
      (start e : Db) (earlier : List Request) (now : ℕ) (id user : String) (existing : Bool)
      (text : String)
      → IsBound store lower email_of start
      → link_org store lower owners create
          (run_requests start earlier)
          now
          id
          (caller store lower email_of user)
          existing
          text
        ≡ done e
      → (s : Session) × (get_onboarding_session (run_requests start earlier) id ≡ some s)
        × (is_buyer store lower email_of s.subscription user ≡ true)
  unfolding link_org get_valid_session Bound
  link_org-is_buyer start e earlier now id user existing text b h =
      let d = run_requests start earlier in
      found_buyer d e now user existing text (get_onboarding_session d id) h
        (run_requests-IsBound start earlier b id)

-- ===== src/Network/Registry/Coherence.antt =====
-- What it is for the registry and the poll to agree, and how the operations keep it.
use message_io.Prelude.{
  ℕ, ◌≡◌, ◌≢◌, ◌↔◌, ◌⊎◌, inl, inr, refl, sym, ap, ◌∙◌, arith, Bool, true, false, Option, none, some,
  Option-cases, Bool-cases, ◌==◌,
}
use message_io.Network.ResourceId.{ResourceId, to_token}
use message_io.Network.Registry.{update, Register, ResourceRegistry, register, deregister, get}

pub update-same :
    {A : Type 0} (f : ℕ → Option A) (k : ℕ) (v : Option A) (j : ℕ) → j ≡ k → update f k v j ≡ v
update-same f k v j h = elim (Bool-cases (j == k)) [ inl e ↦ rw e refl | inr e ↦ ground arith ]

pub update-other :
    {A : Type 0} (f : ℕ → Option A) (k : ℕ) (v : Option A) (j : ℕ) → j ≢ k → update f k v j ≡ f j
update-other f k v j h = elim (Bool-cases (j == k)) [ inl e ↦ ground arith | inr e ↦ rw e refl ]

pub ap_clash : {A : Type 0} {o : Option A} {a : A} → o ≡ some a → o ≢ none
ap_clash h q = cc

pub eq_or_ne : (j k : ℕ) → (j ≡ k) ⊎ (j ≢ k)
eq_or_ne j k = grind arith

-- A value of an updated map is the new one or an old one.
pub update_inv :
    {A : Type 0} (f : ℕ → Option A) (k : ℕ) (v : Option A) (j : ℕ) (a : A)
    → update f k v j ≡ some a
    → ((j ≡ k) × (v ≡ some a)) ⊎ ((j ≢ k) × (f j ≡ some a))
update_inv f k v j a h = elim (eq_or_ne j k) [
  | inl e ↦ inl (e, sym (update-same f k v j e) ∙ h)
  | inr n ↦ inr (n, sym (update-other f k v j n) ∙ h)
]

module _ {S P : Type 0} (source : S → ℕ) where
  -- Every register is watched under the token of its id, every watched source belongs to one, and
  -- no source serves two ids.
  pub record IsCoherent (r : ResourceRegistry S P) : Type 0 where
    pub watched :
        (k : ℕ) (reg : Register S P)
        → r.resources k ≡ some reg
        → (w : Bool) × (r.polled (source reg.resource) ≡ some (to_token (record { id = k }), w))
    pub owned :
        (s : ℕ) (e : ℕ × Bool)
        → r.polled s ≡ some e
        → (k : ℕ) × (reg : Register S P) × (r.resources k ≡ some reg) × (source reg.resource ≡ s)
    pub separate :
        (j k : ℕ) (a b : Register S P)
        → r.resources j ≡ some a
        → r.resources k ≡ some b
        → source a.resource ≡ source b.resource
        → j ≡ k

  registered :
      (r : ResourceRegistry S P) (id : ResourceId) (s : S) (p : P) (w : Bool)
      → r.resources id.id ≡ none
      → register source r id s p w ≡ record {
        resources = update r.resources id.id (some (record { resource = s; properties = p }));
        polled = update r.polled (source s) (some (to_token id, w));
      }
  unfolding register
  registered r id s p w unused = rw unused refl

  source_of :
      (a b : Register S P)
      → ◌≡◌ {A = Option (Register S P)} (some a) (some b)
      → source b.resource ≡ source a.resource
  source_of a b h = cc

  -- A registered source is watched, so it is not one that is not.
  pub other_source :
      (r : ResourceRegistry S P) (k : ℕ) (reg : Register S P) (t : ℕ)
      → IsCoherent r
      → r.resources k ≡ some reg
      → r.polled t ≡ none
      → source reg.resource ≢ t
  other_source r k reg t c h fresh same =
      let (w, watched) = c.watched k reg h in
      let gone : r.polled (source reg.resource) ≡ none = rw same fresh in cc

  -- Registering a source that is not watched, under an id that is not used, keeps them in agreement.
  pub register-IsCoherent :
      (r : ResourceRegistry S P) (id : ResourceId) (s : S) (p : P) (w : Bool)
      → IsCoherent r
      → r.polled (source s) ≡ none
      → r.resources id.id ≡ none
      → IsCoherent (register source r id s p w)
  register-IsCoherent r id s p w c fresh unused =
      let reg : Register S P = record { resource = s; properties = p } in
      rw (registered r id s p w unused) record {
        watched = λ k b e. elim (update_inv r.resources id.id _ k b e) [
          | inl (same, taken) ↦ (
            w,
            update-same r.polled (source s) _ (source b.resource) (source_of reg b taken)
                ∙ ap (λ x. some (to_token (record { id = x }), w)) (sym same),
          )
          | inr (other, old) ↦
              let (v, h) = c.watched k b old in
              (
                v,
                update-other r.polled (source s) _ (source b.resource)
                      (other_source r k b (source s) c old fresh)
                    ∙ h,
              )
        ];
        owned = λ t e h. elim (update_inv r.polled (source s) _ t e h) [
          | inl (same, taken) ↦ (id.id, reg, update-same r.resources id.id _ id.id refl, sym same)
          | inr (other, old) ↦
              let (k, b, h1, h2) = c.owned t e old in
              (
                k,
                b,
                update-other r.resources id.id _ k (λ q. ap_clash h1 (ap r.resources q ∙ unused))
                    ∙ h1,
                h2,
              )
        ];
        separate = λ j k a b ha hb same. elim (update_inv r.resources id.id _ j a ha) [
          | inl (j_new, a_new) ↦ elim (update_inv r.resources id.id _ k b hb) [
            | inl (k_new, b_new) ↦ j_new ∙ sym k_new
            | inr (k_old, b_old) ↦
                absurd
                  (other_source r k b (source s) c b_old fresh (sym same ∙ source_of reg a a_new))
          ]
          | inr (j_old, a_old) ↦ elim (update_inv r.resources id.id _ k b hb) [
            | inl (k_new, b_new) ↦
                absurd (other_source r j a (source s) c a_old fresh (same ∙ source_of reg b b_new))
            | inr (k_old, b_old) ↦ c.separate j k a b a_old b_old same
          ]
        ];
      }

  -- A register is replaced by one with the same source.
  pub replace-IsCoherent :
      (r : ResourceRegistry S P) (id : ResourceId) (old new : Register S P)
      → IsCoherent r
      → r.resources id.id ≡ some old
      → source new.resource ≡ source old.resource
      → IsCoherent (record r { resources = update r.resources id.id (some new) })
  replace-IsCoherent r id old new c h same =
      let was : (k : ℕ) (b : Register S P)
          → update r.resources id.id (some new) k ≡ some b
          → (a : Register S P) × (r.resources k ≡ some a)
            × (source a.resource ≡ source b.resource) =
        λ k b e. elim (update_inv r.resources id.id (some new) k b e) [
          | inl (at_id, taken) ↦
              (old, ap r.resources at_id ∙ h, sym same ∙ sym (source_of new b taken))
          | inr (_, there) ↦ (b, there, refl)
        ] in
      record {
        watched = λ k b e.
            let (a, there, src) = was k b e in
            let (v, hw) = c.watched k a there in (v, ap r.polled (sym src) ∙ hw);
        owned = λ t e hp.
            let (k, b, h1, h2) = c.owned t e hp in
            elim (eq_or_ne k id.id) [
              | inl at_id ↦ (
                id.id,
                new,
                update-same r.resources id.id (some new) id.id refl,
                same ∙ source_of b old (sym h1 ∙ ap r.resources at_id ∙ h) ∙ h2,
              )
              | inr other ↦ (k, b, update-other r.resources id.id (some new) k other ∙ h1, h2)
            ];
        separate = λ j k a b ha hb e.
            let (a', ha', sa) = was j a ha in
            let (b', hb', sb) = was k b hb in c.separate j k a' b' ha' hb' (sa ∙ e ∙ sym sb);
      }

  removed :
      (r : ResourceRegistry S P) (id : ResourceId) (old : Register S P)
      → r.resources id.id ≡ some old
      → deregister source r id ≡ (
        record {
          resources = update r.resources id.id none;
          polled = update r.polled (source old.resource) none;
        },
        true,
      )
  unfolding deregister
  removed r id old h = rw (h, deregister) refl

  not_removed :
      (r : ResourceRegistry S P) (id : ResourceId)
      → r.resources id.id ≡ none
      → deregister source r id ≡ (record r { resources = update r.resources id.id none }, false)
  unfolding deregister
  not_removed r id h = rw (h, deregister) refl

  pub register-resources :
      (r : ResourceRegistry S P) (id : ResourceId) (s : S) (p : P) (w : Bool)
      → (register source r id s p w).resources
        ≡ update r.resources id.id (some (record { resource = s; properties = p }))
  unfolding register
  register-resources r id s p w = elim (Option-cases (r.resources id.id)) [
    | inl h ↦ rw (h, register) refl
    | inr (old, h) ↦ rw (h, register) refl
  ]

  pub deregister-resources :
      (r : ResourceRegistry S P) (id : ResourceId)
      → (deregister source r id).0.resources ≡ update r.resources id.id none
  deregister-resources r id = elim (Option-cases (r.resources id.id)) [
    | inl h ↦ ap (λ x. x.0.resources) (not_removed r id h)
    | inr (old, h) ↦ ap (λ x. x.0.resources) (removed r id old h)
  ]

  pub deregister-was :
      (r : ResourceRegistry S P) (id : ResourceId) (old : Register S P)
      → r.resources id.id ≡ some old
      → (deregister source r id).1 ≡ true
  deregister-was r id old h = ap (λ x. x.1) (removed r id old h)

  pub deregister-was_not :
      (r : ResourceRegistry S P) (id : ResourceId)
      → r.resources id.id ≡ none
      → (deregister source r id).1 ≡ false
  deregister-was_not r id h = ap (λ x. x.1) (not_removed r id h)

  drop_one-IsCoherent :
      (r : ResourceRegistry S P) (id : ResourceId) (old : Register S P)
      → IsCoherent r
      → r.resources id.id ≡ some old
      → IsCoherent (record {
        resources = update r.resources id.id none;
        polled = update r.polled (source old.resource) none;
      })
  drop_one-IsCoherent r id old c h = record {
    watched = λ k b e. elim (update_inv r.resources id.id none k b e) [
      | inl (same, none_is) ↦ cc
      | inr (other, was) ↦
          let (v, hw) = c.watched k b was in
          (
            v,
            update-other r.polled (source old.resource) none (source b.resource)
                  (λ q. other (c.separate k id.id b old was h q))
                ∙ hw,
          )
    ];
    owned = λ t e hp. elim (update_inv r.polled (source old.resource) none t e hp) [
      | inl (same, none_is) ↦ cc
      | inr (other, was) ↦
          let (k, b, h1, h2) = c.owned t e was in
          (
            k,
            b,
            update-other r.resources id.id none k
                  (λ q. other (sym h2 ∙ source_of old b (sym h ∙ ap r.resources (sym q) ∙ h1)))
                ∙ h1,
            h2,
          )
    ];
    separate = λ j k a b ha hb same. elim (update_inv r.resources id.id none j a ha) [
      | inl (_, none_is) ↦ cc
      | inr (_, a_old) ↦ elim (update_inv r.resources id.id none k b hb) [
        | inl (_, none_is) ↦ cc
        | inr (_, b_old) ↦ c.separate j k a b a_old b_old same
      ]
    ];
  }

  keep-IsCoherent :
      (r : ResourceRegistry S P) (id : ResourceId)
      → IsCoherent r
      → r.resources id.id ≡ none
      → IsCoherent (record r { resources = update r.resources id.id none })
  keep-IsCoherent r id c h = record {
    watched = λ k b e. elim (update_inv r.resources id.id none k b e) [
      | inl (same, none_is) ↦ cc
      | inr (other, was) ↦ c.watched k b was
    ];
    owned = λ t e hp.
        let (k, b, h1, h2) = c.owned t e hp in
        (
          k,
          b,
          update-other r.resources id.id none k (λ q. ap_clash h1 (ap r.resources q ∙ h)) ∙ h1,
          h2,
        );
    separate = λ j k a b ha hb same. elim (update_inv r.resources id.id none j a ha) [
      | inl (_, none_is) ↦ cc
      | inr (_, a_old) ↦ elim (update_inv r.resources id.id none k b hb) [
        | inl (_, none_is) ↦ cc
        | inr (_, b_old) ↦ c.separate j k a b a_old b_old same
      ]
    ];
  }

  -- Deregistering an id keeps the agreement, whether or not the id was registered: the id is gone,
  -- its source is no longer watched, and the result says whether there was a register.
  pub deregister-IsCoherent :
      (r : ResourceRegistry S P) (id : ResourceId)
      → IsCoherent r
      → IsCoherent (deregister source r id).0
        × (get source (deregister source r id).0 id ≡ none)
        × (((deregister source r id).1 ≡ true) ↔ (get source r id ≢ none))
  unfolding get
  deregister-IsCoherent r id c = elim (Option-cases (r.resources id.id)) [
    | inl h ↦ rw (not_removed r id h) (
      keep-IsCoherent r id c h,
      update-same r.resources id.id none id.id refl,
      (λ e. cc, λ n. absurd (n h)),
    )
    | inr (old, h) ↦ rw (removed r id old h) (
      drop_one-IsCoherent r id old c h,
      update-same r.resources id.id none id.id refl,
      (λ _ q. ap_clash h q, λ _. refl),
    )
  ]

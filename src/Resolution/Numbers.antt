-- ===== src/Resolution/Numbers.antt =====
-- The numbers that a list of recipients stands for.
use whataapp_otp_project.Base.{
  ◌≡◌, refl, subst, ◌∙◌, inl, inr, String, Bool, true, false, ◌&&◌, Option, none, some, List, [],
  ◌∷◌, ◌++◌, ◌===◌, if◌then◌else◌, any, truthy, arith, eq_iff, Bool-cases, Option-cases, All,
  if_elim,
}
use whataapp_otp_project.Base.Pairwise.{Pairwise, append-Pairwise}
use whataapp_otp_project.Base.Collection.{Collection}
use whataapp_otp_project.Contacts.{Contact, find_contact_by_id}
use whataapp_otp_project.Contacts as ContactService
use whataapp_otp_project.Groups.{Group, find_group_by_id}
use whataapp_otp_project.Groups as GroupService
use whataapp_otp_project.Resolution.{
  add_number, is_valid_object_id, resolve_group_contacts, resolve_object_id_recipient, resolve_one,
  resolve_all,
}

-- No number twice.
abbrev pub IsOnce : List String → Type 0
IsOnce ns = Pairwise (λ a b. (a === b) ≡ false) ns

abbrev pub has : String → List String → Bool
has n ns = any (λ m. m === n) ns

none_has : (n : String) (ns : List String) → has n ns ≡ false → All (λ m. (m === n) ≡ false) ns
none_has n [] h = tt
none_has n (m ∷ ns) h = (ground arith, none_has n ns (ground arith))

add_number-IsOnce : (n : String) (ns : List String) → IsOnce ns → IsOnce (add_number n ns)
add_number-IsOnce n ns d = elim (Bool-cases (has n ns)) [
  | inl e ↦ rw e d
  | inr e ↦ rw e (append-Pairwise (λ a b. (a === b) ≡ false) ns n d (none_has n ns e))
]

has-append :
    (n m : String) (ns : List String) → has n (ns ++ m ∷ []) ≡ (if m === n then true else has n ns)
has-append n m [] = refl
has-append n m (x ∷ ns) = ground (arith, has-append n m ns)

has-add_number :
    (n m : String) (ns : List String)
    → has n (add_number m ns) ≡ (if m === n then true else has n ns)
has-add_number n m ns = elim (Bool-cases (has m ns)) [
  | inl e ↦ rw e (elim (Bool-cases (m === n)) [
    | inl f ↦ rw f (subst (λ k. has k ns ≡ true) ((eq_iff m n).0 f) e)
    | inr f ↦ rw f refl
  ])
  | inr e ↦ rw e (has-append n m ns)
]

module _ (c : Collection Contact) where
  -- What a contact of a group stands for.
  abbrev pub names : String → Option Contact → Bool
  names n none = false
  names n (some k) = truthy (some k.phone_number) && (k.phone_number === n)

  abbrev pub group_has : String → List String → c.Store → Bool
  group_has n ids s = any (λ i. names n (c.find_one (ContactService.has_id i) s)) ids

  group-IsOnce :
      (ids : List String) (s : c.Store) (ns : List String)
      → IsOnce ns
      → IsOnce (resolve_group_contacts c ids s ns)
  unfolding resolve_group_contacts
  group-IsOnce [] s ns d = d
  group-IsOnce (i ∷ is) s ns d = elim (Option-cases (c.find_one (ContactService.has_id i) s)) [
    | inl e ↦ rw (resolve_group_contacts, e) (group-IsOnce is s ns d)
    | inr (k, e) ↦
        rw (resolve_group_contacts, e)
          (group-IsOnce is s
            (if truthy (some k.phone_number) then add_number k.phone_number ns else ns)
            (if_elim IsOnce (truthy (some k.phone_number)) (add_number-IsOnce k.phone_number ns d)
              d))
  ]

  has-group :
      (n : String) (ids : List String) (s : c.Store) (ns : List String)
      → has n (resolve_group_contacts c ids s ns) ≡ (if group_has n ids s then true else has n ns)
  unfolding resolve_group_contacts
  has-group n [] s ns = refl
  has-group n (i ∷ is) s ns = elim (Option-cases (c.find_one (ContactService.has_id i) s)) [
    | inl e ↦ rw (resolve_group_contacts, e) (has-group n is s ns)
    | inr (k, e) ↦
        rw (resolve_group_contacts, e)
          (has-group n is s
              (if truthy (some k.phone_number) then add_number k.phone_number ns else ns)
            ∙ ground (arith, has-add_number n k.phone_number ns))
  ]

module _ (gc : Collection Group) (c : Collection Contact) where
  -- What an item stands for: the contacts of a group, a contact, or itself.
  abbrev of_contact : String → ContactService.Result Contact → Bool
  of_contact n (ContactService.ok k) = k.phone_number === n
  of_contact n (ContactService.err e) = false

  abbrev of_group : String → GroupService.Result Group → c.Store → Bool → Bool
  of_group n (GroupService.ok g) s other = group_has c n g.contacts s
  of_group n (GroupService.err e) s other = other

  abbrev pub stands_for : String → String → String → gc.Store → c.Store → Bool
  stands_for n item account groups s =
      if is_valid_object_id item
      then of_group n (find_group_by_id gc item account groups) s
          (of_contact n (find_contact_by_id c item account s))
      else item === n

  -- What an item adds to a set of numbers.
  record Resolves (item account : String) (groups : gc.Store) (s : c.Store) (ns rs : List String)
      : Type 0 where
    once : IsOnce ns → IsOnce rs
    exact :
        (n : String) → has n rs ≡ (if stands_for n item account groups s then true else has n ns)

  resolve_one-Resolves :
      (item account : String) (groups : gc.Store) (s : c.Store) (ns : List String)
      → Resolves item account groups s ns (resolve_one gc c item account groups s ns)
  unfolding resolve_one resolve_object_id_recipient find_group_by_id find_contact_by_id
  resolve_one-Resolves item account groups s ns = elim (Bool-cases (is_valid_object_id item)) [
    | inr e ↦
        rw (resolve_one, e)
          (record {
            once = add_number-IsOnce item ns;
            exact = λ n. rw (stands_for, e) (has-add_number n item ns);
          })
    | inl e ↦ elim (Option-cases (gc.find_one (GroupService.is_of item account) groups)) [
      | inr (g, f) ↦
          rw (resolve_one, e, resolve_object_id_recipient, find_group_by_id, f)
            (record {
              once = group-IsOnce c g.contacts s ns;
              exact = λ n. rw (stands_for, e, find_group_by_id, f) (has-group c n g.contacts s ns);
            })
      | inl f ↦ elim (Option-cases (c.find_one (ContactService.is_of item account) s)) [
        | inr (k, h) ↦
            rw
              (
                resolve_one, e, resolve_object_id_recipient, find_group_by_id, f,
                find_contact_by_id, h,
              )
              (record {
                once = add_number-IsOnce k.phone_number ns;
                exact = λ n.
                    rw (stands_for, e, find_group_by_id, f, find_contact_by_id, h)
                      (has-add_number n k.phone_number ns);
              })
        | inl h ↦
            rw
              (
                resolve_one, e, resolve_object_id_recipient, find_group_by_id, f,
                find_contact_by_id, h,
              )
              (record {
                once = λ d. d;
                exact = λ n. rw (stands_for, e, find_group_by_id, f, find_contact_by_id, h) refl;
              })
      ]
    ]
  ]

  resolve_all-IsOnce :
      (items : List String) (account : String) (groups : gc.Store) (s : c.Store) (ns : List String)
      → IsOnce ns
      → IsOnce (resolve_all gc c items account groups s ns)
  unfolding resolve_all
  resolve_all-IsOnce [] account groups s ns d = d
  resolve_all-IsOnce (item ∷ items) account groups s ns d =
      resolve_all-IsOnce items account groups s (resolve_one gc c item account groups s ns)
        ((resolve_one-Resolves item account groups s ns).once d)

  has-resolve_all :
      (n : String) (items : List String) (account : String) (groups : gc.Store) (s : c.Store)
      (ns : List String)
      → has n (resolve_all gc c items account groups s ns)
        ≡ (if any (λ item. stands_for n item account groups s) items then true else has n ns)
  unfolding resolve_all
  has-resolve_all n [] account groups s ns = refl
  has-resolve_all n (item ∷ items) account groups s ns =
      has-resolve_all n items account groups s (resolve_one gc c item account groups s ns)
      ∙ ground (arith, (resolve_one-Resolves item account groups s ns).exact n)

  -- The resolved recipients repeat no number, and a number is among them exactly if some item
  -- stands for it: a text that is no identifier for itself, an identifier for the stored contacts
  -- of the account's group of that identifier, or where there is no such group, for the contact.
  pub resolved_exactly :
      (items : List String) (account : String) (groups : gc.Store) (s : c.Store)
      → IsOnce (resolve_all gc c items account groups s [])
        × ((n : String)
            → has n (resolve_all gc c items account groups s [])
              ≡ any (λ item. stands_for n item account groups s) items)
  resolved_exactly items account groups s = (
    resolve_all-IsOnce items account groups s [] tt,
    λ n. has-resolve_all n items account groups s [] ∙ ground arith,
  )

-- ===== src/Filter/Tests.antt =====
-- pkg/filter: concrete users and headers for the theorems about the filters.
use fasthttpd.Base.{
  ◌≡◌, refl, ap, ◌⊎◌, inl, inr, Bool, true, not, Option, none, some, List, [], ◌∷◌, ◌++◌, arith,
  if◌then◌else◌, Bool-cases, All, Any, Bytes, codes, bytes_eq, eq_of_bytes_eq, ℤ,
}
use fasthttpd.Handler.Samples.{Context, plain_http, get_page}
use fasthttpd.Filter.BasicAuth.{
  BasicAuthUser, BasicAuthFilter, initialized, panic, init, init_users, load_users, request,
}
use fasthttpd.Filter.BasicAuth.Laws.{credentials, pointers, HasNoSecret, Decides, init-request}
use fasthttpd.Filter.Header.{FastHttpHeader, HeaderRules, filter}
use fasthttpd.Filter.Header.Laws.{FastHttpHeaderLaws, matching, has_key, last_or, values-filter}

abbrev alice : BasicAuthUser
alice = record { name = codes "alice"; secret = codes "s"; auth = [] }

abbrev one_user : BasicAuthFilter
one_user = record { realm = codes "Restricted"; users = some alice ∷ []; users_file = [] }

abbrev no_file : Bytes → Option (List (Option BasicAuthUser))
no_file path = none

-- Every request of the example sends the credentials of the user.
abbrev alice_header : Context → Bytes
alice_header c = credentials alice

abbrev keep_name : Bytes → Context → Context
keep_name n c = c

abbrev set_error : Bytes → ℤ → Context → Context
set_error message code c = record c { status = code; body = message }

load-one_user : load_users no_file one_user ≡ some one_user
unfolding load_users
load-one_user = refl

init-request_example :
    (Any (λ p. p ≡ none) one_user.users × (init no_file one_user ≡ panic))
    ⊎ ((us : List BasicAuthUser) × (f' : BasicAuthFilter) × (one_user.users ≡ pointers us)
        × (init no_file one_user ≡ initialized f')
        × All HasNoSecret f'.users
        × Decides plain_http alice_header keep_name set_error
            (Any (λ u. alice_header get_page ≡ credentials u) us)
            (request plain_http alice_header keep_name set_error f' get_page))
init-request_example =
    init-request plain_http alice_header keep_name set_error no_file one_user one_user get_page
      load-one_user

-- A file with a null for a user.
abbrev null_file : Bytes → Option (List (Option BasicAuthUser))
null_file path = some (some alice ∷ none ∷ [])

init-null_file : init null_file (record one_user { users_file = codes "users" }) ≡ panic
unfolding init init_users load_users
init-null_file = refl

-- A header as the list of its entries; adding a Content-Type replaces it.
abbrev entries_of : Bytes → List (Bytes × Bytes) → List Bytes
entries_of k [] = []
entries_of k ((j, v) ∷ h) = if bytes_eq j k then v ∷ entries_of k h else entries_of k h

abbrev without : Bytes → List (Bytes × Bytes) → List (Bytes × Bytes)
without k [] = []
without k ((j, v) ∷ h) = if bytes_eq j k then without k h else (j, v) ∷ without k h

abbrev list_header : FastHttpHeader (List (Bytes × Bytes))
list_header = record {
  set_bytes = λ k v h. (k, v) ∷ without k h;
  add_bytes =
      λ k v h. if bytes_eq k (codes "Content-Type") then (k, v) ∷ without k h else h ++ (k, v) ∷ [];
  del_bytes = λ k h. without k h;
}

entries_of-without :
    (k j : Bytes) (h : List (Bytes × Bytes))
    → entries_of k (without j h) ≡ (if bytes_eq j k then [] else entries_of k h)
entries_of-without k j [] = ground arith
entries_of-without k j ((i, v) ∷ h) = elim (Bool-cases (bytes_eq i j)) [
  | inl e ↦
      let same : i ≡ j = eq_of_bytes_eq i j e in
      let keys : bytes_eq i k ≡ bytes_eq j k = ap (λ x. bytes_eq x k) same in
      rw (e, keys) (ground (arith, entries_of-without k j h))
  | inr e ↦ elim (Bool-cases (bytes_eq j k)) [
    | inr f ↦ rw e (ground (arith, entries_of-without k j h))
    | inl f ↦
        let same : bytes_eq i j ≡ bytes_eq i k = ap (bytes_eq i) (eq_of_bytes_eq j k f) in
        rw e (ground (arith, entries_of-without k j h))
  ]
]

entries_of-set :
    (k j v : Bytes) (h : List (Bytes × Bytes))
    → entries_of k ((j, v) ∷ without j h) ≡ (if bytes_eq j k then v ∷ [] else entries_of k h)
entries_of-set k j v h = ground (arith, entries_of-without k j h)

entries_of-append :
    (k j v : Bytes) (h : List (Bytes × Bytes))
    → entries_of k (h ++ (j, v) ∷ [])
      ≡ (if bytes_eq j k then entries_of k h ++ v ∷ [] else entries_of k h)
entries_of-append k j v [] = ground arith
entries_of-append k j v ((i, w) ∷ h) = ground (arith, entries_of-append k j v h)

abbrev is_ordinary : Bytes → Bool
is_ordinary k = not (bytes_eq (codes "Content-Type") k)

entries_of-add :
    (k j v : Bytes) (h : List (Bytes × Bytes))
    → is_ordinary k ≡ true
    → entries_of k (list_header.add_bytes j v h)
      ≡ (if bytes_eq j k then entries_of k h ++ v ∷ [] else entries_of k h)
entries_of-add k j v h o = elim (Bool-cases (bytes_eq j (codes "Content-Type"))) [
  | inr e ↦ rw e (entries_of-append k j v h)
  | inl e ↦
      let same : bytes_eq j k ≡ bytes_eq (codes "Content-Type") k =
        ap (λ x. bytes_eq x k) (eq_of_bytes_eq j (codes "Content-Type") e) in
      rw e (ground (arith, entries_of-set k j v h, same, o))
]

abbrev list_header-FastHttpHeaderLaws : FastHttpHeaderLaws list_header
list_header-FastHttpHeaderLaws = record {
  same_key = bytes_eq;
  ordinary = is_ordinary;
  values = entries_of;
  values-set = λ k j v h o u. entries_of-set k j v h;
  values-add = entries_of-add;
  values-del = λ k j h o. entries_of-without k j h;
}

abbrev some_rules : HeaderRules
some_rules = record {
  set_headers = (codes "A", codes "1") ∷ [];
  add_headers = (codes "A", codes "2") ∷ [];
  del_keys = codes "B" ∷ [];
}

values-filter_example :
    entries_of (codes "A") (filter list_header some_rules ((codes "A", codes "0") ∷ [])) ≡ (
      if has_key bytes_eq (codes "A") some_rules.del_keys
      then []
      else last_or
          (entries_of (codes "A") ((codes "A", codes "0") ∷ []))
          (matching bytes_eq (codes "A") some_rules.set_headers)
        ++ matching bytes_eq (codes "A") some_rules.add_headers)
unfolding bytes_eq
values-filter_example =
    values-filter list_header list_header-FastHttpHeaderLaws (codes "A") some_rules
      ((codes "A", codes "0") ∷ []) refl tt

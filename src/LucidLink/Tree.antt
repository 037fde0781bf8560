-- ===== src/LucidLink/Tree.antt =====
-- The tree of folders behind the client: what each of its calls leaves of it.
use Prim.Native.String
use connect_manager.Prelude.{
  All, ◌≡◌, refl, String, Bool, true, false, ◌||◌, List, [], ◌∷◌, ◌++◌, Bool-cases, inl, inr,
  str_eq, ◌==◌, if◌then◌else◌,
}
use connect_manager.Db.Table.{Result, ok, err, ◌>>=◌}
use connect_manager.Notifications.Values.{Json, null, str, is_text}
use connect_manager.LucidLink.{
  Http, Client, Response, Reply, response, timed_out, connect_failed, raised, get_id_by_path,
  create_folder, is_true, resolve_request, create_request, resolved_id, created_id, resolved,
  created, created_or, http_message,
}

-- A folder by the names on the way to it, and its text as `check_path` has it.
abbrev pub extended : String → List String → String
extended path [] = path
extended path (f ∷ fs) = extended (String.◌++◌ path (String.◌++◌ "/" f)) fs

abbrev pub path_of : List String → String
path_of [] = "/"
path_of (f ∷ fs) = extended "" (f ∷ fs)

pub extended_snoc :
    (path : String) (ns : List String) (f : String)
    → extended path (ns ++ f ∷ []) ≡ String.◌++◌ (extended path ns) (String.◌++◌ "/" f)
extended_snoc path [] f = refl
extended_snoc path (n ∷ ns) f = extended_snoc (String.◌++◌ path (String.◌++◌ "/" n)) ns f

pub path_of_snoc :
    (ns : List String) (f : String)
    → path_of (ns ++ f ∷ []) ≡ String.◌++◌ (extended "" ns) (String.◌++◌ "/" f)
path_of_snoc [] f = refl
path_of_snoc (n ∷ ns) f = extended_snoc "" (n ∷ ns) f

-- A name of a folder is not empty.
abbrev pub IsName : String → Type 0
IsName w = str_eq w "" ≡ false

-- What the service behind the requests does: `Is id ns y` says that the entry of this id is the folder
-- at the names `ns`. It keeps folders, resolves a path to the entry at it, and creates an entry under
-- its parent.
pub record Serves {Y : Type 0} (h : Http Y) (c : Client) (Is : Json → List String → Y → Type 0)
    : Type 0 where
  pub keeps_resolve :
      (path : String) (id : Json) (ns : List String) (y : Y)
      → Is id ns y
      → Is id ns (h.send (resolve_request h c path) y).1
  pub keeps_create :
      (name : String) (parent id : Json) (ns : List String) (y : Y)
      → Is id ns y
      → Is id ns (h.send (create_request h c name parent) y).1
  pub resolves :
      (ns : List String) (y : Y) (r : Response)
      → All IsName ns
      → (h.send (resolve_request h c (path_of ns)) y).0 ≡ response r
      → (r.status == 200) ≡ true
      → is_true (resolved_id r.json) ≡ true
      → Is (resolved_id r.json) ns (h.send (resolve_request h c (path_of ns)) y).1
  pub creates :
      (ns : List String) (name : String) (parent id : Json) (y : Y) (r : Response)
      → Is parent ns y
      → (h.send (create_request h c name parent) y).0 ≡ response r
      → (r.status == 200 || r.status == 201) ≡ true
      → (r.json >>= created_id) ≡ ok id
      → is_true id ≡ true
      → Is id (ns ++ name ∷ []) (h.send (create_request h c name parent) y).1

true_of_if :
    (P : Json → Type 0) (b : Bool) (v : Json)
    → (b ≡ true → is_true v ≡ true → P v)
    → is_true (if b then v else null) ≡ true
    → P (if b then v else null)
true_of_if P true v k e = k refl e
true_of_if P false v k e = absurd (cc)

module _ {Y : Type 0} (h : Http Y) (c : Client) (Is : Json → List String → Y → Type 0)
    (serves : Serves h c Is) where
  resolved_lem :
      (ns : List String) (y : Y) (reply : Reply)
      → ((r : Response)
          → reply ≡ response r
          → (r.status == 200) ≡ true
          → is_true (resolved_id r.json) ≡ true
          → Is (resolved_id r.json) ns y)
      → is_true (resolved h reply) ≡ true
      → Is (resolved h reply) ns y
  resolved_lem ns y (response r) law found =
      true_of_if (λ v. Is v ns y) (r.status == 200) (resolved_id r.json) (law r refl) found
  resolved_lem ns y (timed_out m) law found = absurd (cc)
  resolved_lem ns y (connect_failed m) law found = absurd (cc)
  resolved_lem ns y (raised k m) law found = absurd (cc)

  -- An id that was found names the folder at the path.
  pub Is-get_id_by_path :
      (ns : List String) (y : Y)
      → All IsName ns
      → is_true (get_id_by_path h c (path_of ns) y).0 ≡ true
      → Is (get_id_by_path h c (path_of ns) y).0 ns (get_id_by_path h c (path_of ns) y).1
  unfolding get_id_by_path
  Is-get_id_by_path ns y names found = go (str_eq c.base_url "") found
    where
      sent : Json × Y
      sent = (
        resolved h (h.send (resolve_request h c (path_of ns)) y).0,
        (h.send (resolve_request h c (path_of ns)) y).1,
      )

      go :
          (b : Bool)
          → is_true (elim b as (λ _. Json × Y) [ true ↦ (null, y) | false ↦ sent ]).0 ≡ true
          → Is
              (elim b as (λ _. Json × Y) [ true ↦ (null, y) | false ↦ sent ]).0
              ns
              (elim b as (λ _. Json × Y) [ true ↦ (null, y) | false ↦ sent ]).1
      go true e = absurd (cc)
      go false e = resolved_lem ns _ _ (λ r. serves.resolves ns y r names) e

  pub keeps-get_id_by_path :
      (path : String) (id : Json) (ns : List String) (y : Y)
      → Is id ns y
      → Is id ns (get_id_by_path h c path y).1
  unfolding get_id_by_path
  keeps-get_id_by_path path id ns y k = elim (Bool-cases (str_eq c.base_url "")) [
    | inl e ↦ rw (get_id_by_path, e) k
    | inr e ↦ rw (get_id_by_path, e) (serves.keeps_resolve path id ns y k)
  ]

  pub keeps-create_folder :
      (name : String) (parent id : Json) (ns : List String) (y : Y)
      → Is id ns y
      → Is id ns (create_folder h c name parent y).1
  unfolding create_folder
  keeps-create_folder name parent id ns y k = elim (Bool-cases (str_eq c.base_url "")) [
    | inl e ↦ rw (create_folder, e) k
    | inr e ↦ rw (create_folder, e) (serves.keeps_create name parent id ns y k)
  ]

  -- What was created is the folder, unless it is the mark of a conflict.
  abbrev pub IsCreated : List String → (Json × String) × Y → Type 0
  IsCreated ns ((id, e), y) = is_text id "CONFLICT" ≡ false → is_true id ≡ true → Is id ns y

  IsCreated-created_or :
      (ns : List String) (y : Y) (r : Result Json)
      → ((id : Json) → r ≡ ok id → is_true id ≡ true → Is id ns y)
      → IsCreated ns (created_or h r, y)
  IsCreated-created_or ns y (ok id) law k e = law id refl e
  IsCreated-created_or ns y (err f) law k e = absurd (cc)

  IsCreated-created :
      (ns : List String) (y : Y) (reply : Reply)
      → ((r : Response) (id : Json)
          → reply ≡ response r
          → (r.status == 200 || r.status == 201) ≡ true
          → (r.json >>= created_id) ≡ ok id
          → is_true id ≡ true
          → Is id ns y)
      → IsCreated ns (created h reply, y)
  IsCreated-created ns y (response r) law =
      go (r.status == 200 || r.status == 201) (r.status == 409)
        (λ e. IsCreated-created_or ns y (r.json >>= created_id) (λ id k. law r id refl e k))
    where
      go :
          (b d : Bool)
          → (b ≡ true → IsCreated ns (created_or h (r.json >>= created_id), y))
          → IsCreated ns (
            (if b
                then created_or h (r.json >>= created_id)
                else if d
                then (str "CONFLICT", "")
                else (null, http_message r.status r.text)),
            y,
          )
      go true d k = k refl
      go false true k = λ e f. absurd (cc)
      go false false k = λ e f. absurd (cc)
  IsCreated-created ns y (timed_out m) law = λ k e. absurd (cc)
  IsCreated-created ns y (connect_failed m) law = λ k e. absurd (cc)
  IsCreated-created ns y (raised t m) law = λ k e. absurd (cc)

  pub IsCreated-create_folder :
      (ns : List String) (name : String) (parent : Json) (y : Y)
      → Is parent ns y
      → IsCreated (ns ++ name ∷ []) (create_folder h c name parent y)
  unfolding create_folder
  IsCreated-create_folder ns name parent y k = elim (Bool-cases (str_eq c.base_url "")) [
    | inl e ↦ rw (create_folder, e) (λ d f. absurd (cc))
    | inr e ↦
        rw (create_folder, e)
          (IsCreated-created _ _ _ (λ r id. serves.creates ns name parent id y r k))
  ]

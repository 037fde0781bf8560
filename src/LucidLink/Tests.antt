-- ===== src/LucidLink/Tests.antt =====
-- A service that finds the root only and creates every folder that it is asked for: the id of a folder
-- is the text of its path.
use Prim.Native.String
use text.Mathlib.TextLemmas.{nil-append, cons-append}
use connect_manager.Prelude.{
  All, ℕ, ◌+◌, ◌≤◌, ◌==◌, ==_iff, ◌≡◌, refl, ap, sym, ◌∙◌, String, true, false, List, [], ◌∷◌, ◌++◌,
  Option, some, arith, length, str_eq, eq_iff, if◌then◌else◌, Bool-cases, inl, inr, subst,
}
use connect_manager.Text.{codes}
use connect_manager.Db.Table.{Result, ok, err, type_error, ◌>>=◌}
use connect_manager.Text.Format.{split_at}
use connect_manager.Notifications.Values.{Json, null, str, obj, nil, field, Fields, find, get}
use connect_manager.LucidLink.{
  Http, Client, new_client, configure, clean_token, Method, get_method, post_method, Response,
  Reply, response, folder_fields, resolved_id, is_true, created_id, get_id_by_path, create_folder,
}
use connect_manager.LucidLink.Folders.{folders_of, ensure_structure, walk, attempts, attempt}
use connect_manager.LucidLink.Requests.{counted, ensure_structure-requests}
use connect_manager.LucidLink.Tree.{IsName, extended_snoc, extended, path_of, Serves}
use connect_manager.LucidLink.Made.{AreThere, ensure_structure-AreThere}

abbrev answer : ℕ → String → Reply
answer status id =
    response (record { status = status; text = ""; json = ok (obj (field "id" (str id) nil)) })

abbrev refusal : Reply
refusal = response (record { status = 404; text = "no"; json = err type_error })

abbrev found : String → Reply
found path = if str_eq path "/" then answer 200 "root" else refusal

abbrev child : Fields → Reply
child (field t (str name) (field u v (field w (str parent) fs))) =
    answer 201 (String.◌++◌ parent (String.◌++◌ "/" name))
child fs = refusal

abbrev served : Method → Option String → Option Json → Reply
served get_method (some path) payload = found path
served post_method path (some (obj fs)) = child fs
served method path payload = refusal

abbrev server : Http ℕ
server = record {
  send = λ r y. (served r.method r.path r.payload, y);
  ll_host = "host";
  describe = λ e. "error";
}

abbrev client : Client
client = configure "Bearer t" "fs" "ds" "" (new_client "host" "")

parsed : folders_of "/a/b/c" ≡ ok ("a" ∷ "b" ∷ [])
unfolding folders_of split_at
parsed = refl

ensure_structure-requests_example :
    (ensure_structure (counted server) client "/a/b/c" (0, 0)).1.1 ≤ 13
ensure_structure-requests_example =
    ensure_structure-requests server client "/a/b/c" ("a" ∷ "b" ∷ []) 0 parsed

codes-append :
    (a b : String) → length (codes (String.◌++◌ a b)) ≡ length (codes a) + length (codes b)
codes-append String.[] b = rw nil-append (omega arith)
codes-append (String.◌∷◌ c a) b = rw cons-append (omega (arith, codes-append a b))

extended-length :
    (path : String) (ns : List String) → length (codes path) ≤ length (codes (extended path ns))
extended-length path [] = omega arith
extended-length path (n ∷ ns) =
    let path' = String.◌++◌ path (String.◌++◌ "/" n) in
    omega (arith, extended-length path' ns, codes-append path (String.◌++◌ "/" n))

name-length : (n : String) → IsName n → 1 ≤ length (codes n)
name-length String.[] e = absurd (cc)
name-length (String.◌∷◌ c n) e = omega arith

-- The text of a folder that is not the root is longer than "/".
below_root : (n : String) (ns : List String) → IsName n → 2 ≤ length (codes (path_of (n ∷ ns)))
below_root n ns e = omega (
  arith,
  name-length n e,
  extended-length (String.◌++◌ "" (String.◌++◌ "/" n)) ns,
  codes-append "" (String.◌++◌ "/" n),
  codes-append "/" n,
)

abbrev Is : Json → List String → ℕ → Type 0
Is id ns y = id ≡ str (extended "root" ns)

abbrev id_in : Reply → Json
id_in (response r) = resolved_id r.json
id_in reply = null

abbrev status_in : Reply → ℕ
status_in (response r) = r.status
status_in reply = 0

resolves_root :
    (ns : List String) (y : ℕ) (r : Response)
    → All IsName ns
    → found (path_of ns) ≡ response r
    → (r.status == 200) ≡ true
    → is_true (resolved_id r.json) ≡ true
    → Is (resolved_id r.json) ns y
unfolding find get
resolves_root [] y r names sent status found = ap id_in (sym sent)
resolves_root (n ∷ ns) y r names sent status found =
    elim (Bool-cases (str_eq (path_of (n ∷ ns)) "/")) [
      | inl e ↦ absurd (
          omega (
            arith,
            below_root n ns names.0,
            ap (λ s. length (codes s)) ((eq_iff (path_of (n ∷ ns)) "/").0 e),
          ))
      | inr e ↦
          let refused : refusal ≡ response r =
            subst (λ b. (if b then answer 200 "root" else refusal) ≡ response r) e sent in
          absurd (omega (arith, (==_iff r.status 200).0 status, ap status_in refused))
    ]

not_empty : (ns : List String) → str_eq (extended "root" ns) "" ≡ false
not_empty ns = elim (Bool-cases (str_eq (extended "root" ns) "")) [
  | inl e ↦ absurd (
      omega (
        arith,
        extended-length "root" ns,
        ap (λ s. length (codes s)) ((eq_iff (extended "root" ns) "").0 e),
      ))
  | inr e ↦ e
]

created_of :
    (s : String) → str_eq s "" ≡ false → created_id (obj (field "id" (str s) nil)) ≡ ok (str s)
unfolding created_id find get
created_of s e = rw e refl

abbrev json_in : Reply → Result Json
json_in (response r) = r.json
json_in reply = err type_error

abbrev id_or : Result Json → Json
id_or (ok v) = v
id_or (err e) = null

created_below :
    (ns : List String) (name : String) (parent id : Json) (y : ℕ) (r : Response)
    → Is parent ns y
    → child (folder_fields server name parent) ≡ response r
    → (r.json >>= created_id) ≡ ok id
    → Is id (ns ++ name ∷ []) y
created_below ns name parent id y r at sent made =
    let s = extended "root" ns in
    let there : answer 201 (String.◌++◌ s (String.◌++◌ "/" name)) ≡ response r =
      rw (at, not_empty ns) at sent in
    let same = extended_snoc "root" ns name in
    let ne = subst (λ t. str_eq t "" ≡ false) same (not_empty (ns ++ name ∷ [])) in
    ap id_or (
      sym made
      ∙ (ap (λ j. j >>= created_id) (sym (ap json_in there))
          ∙ created_of (String.◌++◌ s (String.◌++◌ "/" name)) ne))
    ∙ ap str (sym same)

server_serves : Serves server client Is
server_serves = record {
  keeps_resolve = λ path id ns y k. k;
  keeps_create = λ name parent id ns y k. k;
  resolves = λ ns y r names. resolves_root ns y r names;
  creates = λ ns name parent id y r at sent status made truth.
      created_below ns name parent id y r at sent made;
}

succeeds : ensure_structure server client "/a/b/c" 0 ≡ (ok (true, ""), 0)
unfolding ensure_structure folders_of split_at walk attempts attempt get_id_by_path create_folder
    created_id find get configure clean_token
succeeds = refl

ensure_structure-AreThere_example : AreThere server client Is server_serves [] ("a" ∷ "b" ∷ []) 0
ensure_structure-AreThere_example =
    ensure_structure-AreThere server client Is server_serves "/a/b/c" ("a" ∷ "b" ∷ []) 0 0 "" parsed
      succeeds

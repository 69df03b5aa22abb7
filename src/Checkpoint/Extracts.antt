-- ===== src/Checkpoint/Extracts.antt =====
-- What the extraction of an archive leaves at each path.
use ai_agent_workflow.Prelude.{
  String, ◌≡◌, refl, ◌∙◌, Bool, true, Option, none, some, [], ◌∷◌, select, str_eq, if◌then◌else◌,
  eq_iff, eq_refl, subst, ok, Bool-cases, inl, inr,
}
use ai_agent_workflow.Prelude.Dict.{get, put, get-put}
use ai_agent_workflow.Checkpoint.Archives.{Files}
use ai_agent_workflow.Checkpoint.Restore.{FileSystem, first_outside, extract_all}

-- No two files have the same path.
abbrev pub IsDistinct : Files → Type 0
IsDistinct [] = Unit
IsDistinct ((path, content) ∷ rest) = (get rest path ≡ none) × IsDistinct rest

-- The content, if the file passes the test.
abbrev pub passing : (String × String → Bool) → String → Option String → Option String
passing test path none = none
passing test path (some content) = if test (path, content) then some content else none

-- A path's content in the archive, else that of the project.
abbrev pub over : Option String → Option String → Option String
over none kept = kept
over (some content) kept = some content

passing-none :
    (test : String × String → Bool) (path : String) (found : Option String)
    → found ≡ none
    → passing test path found ≡ none
passing-none test path found e = rw e refl

pub get-select :
    (test : String × String → Bool) (files : Files) (path : String)
    → IsDistinct files
    → get (select test files) path ≡ passing test path (get files path)
unfolding get
get-select test [] path d = refl
get-select test ((j, v) ∷ files) path (new, d) =
    let rest : (k : String) → get (select test files) k ≡ passing test k (get files k) =
      λ k. get-select test files k d in
    elim (Bool-cases (str_eq j path)) [
      | inl e ↦
          subst
            (λ k.
              get (select test ((j, v) ∷ files)) k
              ≡ passing test k (get {V = String} ((j, v) ∷ files) k))
            ((eq_iff j path).0 e)
            (elim (Bool-cases (test (j, v))) [
              | inl t ↦ rw (t, eq_refl j) (rw t refl)
              | inr t ↦ rw (t, eq_refl j) (rw t (rest j ∙ passing-none test j (get files j) new))
            ])
      | inr e ↦ elim (Bool-cases (test (j, v))) [
        | inl t ↦ rw (t, e) (rest path)
        | inr t ↦ rw (t, e) (rest path)
      ]
    ]

pub select-IsDistinct :
    (test : String × String → Bool) (files : Files)
    → IsDistinct files
    → IsDistinct (select test files)
select-IsDistinct test [] d = tt
select-IsDistinct test ((j, v) ∷ files) (new, d) =
    let rest : IsDistinct (select test files) = select-IsDistinct test files d in
    elim (Bool-cases (test (j, v))) [
      | inl t ↦ rw t (get-select test files j d ∙ passing-none test j (get files j) new, rest)
      | inr t ↦ rw t rest
    ]

-- Each path can be written and is inside the project.
abbrev pub IsPlaceable : FileSystem → Files → Type 0
IsPlaceable fs [] = Unit
IsPlaceable fs ((path, content) ∷ rest) =
    (fs.is_inside path ≡ true) × (fs.is_writable path ≡ true) × IsPlaceable fs rest

pub first_outside-none :
    (fs : FileSystem) (files : Files) → IsPlaceable fs files → first_outside fs files ≡ none
unfolding first_outside
first_outside-none fs [] h = refl
first_outside-none fs ((path, content) ∷ rest) (inside, _, h) =
    rw inside (first_outside-none fs rest h)

over-put :
    (files project : Files) (j path v : String)
    → get files j ≡ none
    → over (get files path) (get (put project j v) path)
      ≡ over (if str_eq j path then some v else get files path) (get project path)
over-put files project j path v new = elim (Bool-cases (str_eq j path)) [
  | inl e ↦
      subst
        (λ k.
          over (get files k) (get (put project j v) k)
          ≡ over (if str_eq j k then some v else get files k) (get project k))
        ((eq_iff j path).0 e) (rw (new, get-put project j j v, eq_refl j) refl)
  | inr e ↦ rw (get-put project j path v, e) refl
]

pub extract_all-get :
    (fs : FileSystem) (files project : Files)
    → IsPlaceable fs files
    → IsDistinct files
    → ((extract_all fs files project).1 ≡ ok tt)
      × ((path : String)
          → get (extract_all fs files project).0 path ≡ over (get files path) (get project path))
unfolding extract_all get
extract_all-get fs [] project h d = (refl, λ path. refl)
extract_all-get fs ((j, v) ∷ files) project (_, writable, h) (new, d) =
    let (returns, later) = extract_all-get fs files (put project j v) h d in
    rw writable (returns, λ path. later path ∙ over-put files project j path v new)

-- ===== src/OpenFolders/Views.antt =====
-- The folders that a run of views entering and leaving keeps open.
use kio_protondrive.Base.{
  ℕ, ◌+◌, ◌-◌, ◌<◌, ◌≤◌, ◌%◌, ◌^◌, Text, same, [], ◌∷◌, List, Option, none, some, ◌≡◌, ◌≢◌, ◌↔◌,
  refl, sym, arith, ap, ◌∙◌, if◌then◌else◌,
}
use kio_protondrive.Table.{find}
use kio_protondrive.Table.Laws.{find-upsert, find-delete}
use kio_protondrive.OpenFolders.{
  Change, entered, left, OpenFolder, OpenFolders, views_of, leave, apply,
}

-- A change at a path and a time.
abbrev pub Event : Type 0
Event = Change × Text × ℕ

unfoldable pub run : List Event → OpenFolders → OpenFolders
run [] folders = folders
run ((change, path, now) ∷ events) folders = run events (apply change path now folders)

-- The views of one folder, from how many there were: more by each that enters, fewer by each that
-- leaves while there is one.
abbrev pub views_by : Text → ℕ → List Event → ℕ
views_by path n [] = n
views_by path n ((entered, q, _) ∷ events) = views_by path (if same q path then n + 1 else n) events
views_by path n ((left, q, _) ∷ events) = views_by path (if same q path then n - 1 else n) events

-- How many views enter.
abbrev pub entries : List Event → ℕ
entries [] = 0
entries ((entered, _, _) ∷ events) = entries events + 1
entries ((left, _, _) ∷ events) = entries events

-- No folder has more views than so many.
abbrev AtMost : ℕ → OpenFolders → Type 0
AtMost n folders = (path : Text) → views_of (find path folders) ≤ n

-- No folder without a view is kept.
abbrev pub IsViewed : OpenFolders → Type 0
IsViewed folders = (path : Text) → find path folders ≢ none → 0 < views_of (find path folders)

abbrev step_views : Text → Event → ℕ → ℕ
step_views path (entered, q, _) n = if same q path then n + 1 else n
step_views path (left, q, _) n = if same q path then n - 1 else n

leave-views :
    (path q : Text) (o : Option OpenFolder) (folders : OpenFolders)
    → find q folders ≡ o
    → views_of (find path (leave q o folders))
      ≡ (if same q path then views_of (find path folders) - 1 else views_of (find path folders))
leave-views path q none folders e = ground arith
leave-views path q (some f) folders e = ground (
  arith,
  find-delete q path folders,
  find-upsert q path (record f { views = f.views - 1 }) folders,
)

leave-IsViewed :
    (q : Text) (o : Option OpenFolder) (folders : OpenFolders)
    → IsViewed folders
    → IsViewed (leave q o folders)
leave-IsViewed q none folders v path n = v path n
leave-IsViewed q (some f) folders v path n = ground (
  arith,
  v path,
  n,
  find-delete q path folders,
  find-upsert q path (record f { views = f.views - 1 }) folders,
)

apply-views :
    (path q : Text) (c : Change) (now : ℕ) (folders : OpenFolders)
    → views_of (find q folders) + 1 < 2 ^ 32
    → views_of (find path (apply c q now folders))
      ≡ step_views path (c, q, now) (views_of (find path folders))
unfolding apply
apply-views path q entered now folders b = rw find-upsert (ground arith)
apply-views path q left now folders b = leave-views path q (find q folders) folders refl

apply-IsViewed :
    (c : Change) (q : Text) (now : ℕ) (folders : OpenFolders)
    → views_of (find q folders) + 1 < 2 ^ 32
    → IsViewed folders
    → IsViewed (apply c q now folders)
unfolding apply
apply-IsViewed entered q now folders b v path n = ground (
  arith,
  v path,
  n,
  find-upsert q path (record { views = (views_of (find q folders) + 1) % 2 ^ 32; last_seen = now })
      folders,
)
apply-IsViewed left q now folders b v path n = leave-IsViewed q (find q folders) folders v path n

entered-AtMost :
    (n : ℕ) (q : Text) (now : ℕ) (folders : OpenFolders)
    → n + 1 < 2 ^ 32
    → AtMost n folders
    → AtMost (n + 1) (apply entered q now folders)
entered-AtMost n q now folders b h path =
    rw (apply-views path q entered now folders (omega (arith, h q))) (ground (arith, h path))

left-AtMost :
    (n : ℕ) (q : Text) (now : ℕ) (folders : OpenFolders)
    → n + 1 < 2 ^ 32
    → AtMost n folders
    → AtMost n (apply left q now folders)
left-AtMost n q now folders b h path =
    rw (apply-views path q left now folders (omega (arith, h q))) (ground (arith, h path))

run-views :
    (n : ℕ) (path : Text) (events : List Event) (folders : OpenFolders)
    → AtMost n folders
    → n + entries events + 1 < 2 ^ 32
    → views_of (find path (run events folders))
      ≡ views_by path (views_of (find path folders)) events
unfolding run
run-views n path [] folders h b = refl
run-views n path ((entered, q, now) ∷ events) folders h b =
    run-views (n + 1) path events (apply entered q now folders)
      (entered-AtMost n q now folders (omega (arith, b)) h) (omega (arith, b))
    ∙ ap (λ n. views_by path n events)
        (apply-views path q entered now folders (omega (arith, h q, b)))
run-views n path ((left, q, now) ∷ events) folders h b =
    run-views n path events (apply left q now folders)
      (left-AtMost n q now folders (omega (arith, b)) h) (omega (arith, b))
    ∙ ap (λ n. views_by path n events) (apply-views path q left now folders (omega (arith, h q, b)))

run-IsViewed :
    (n : ℕ) (events : List Event) (folders : OpenFolders)
    → AtMost n folders
    → n + entries events + 1 < 2 ^ 32
    → IsViewed folders
    → IsViewed (run events folders)
unfolding run
run-IsViewed n [] folders h b v = v
run-IsViewed n ((entered, q, now) ∷ events) folders h b v =
    run-IsViewed (n + 1) events (apply entered q now folders)
      (entered-AtMost n q now folders (omega (arith, b)) h) (omega (arith, b))
      (apply-IsViewed entered q now folders (omega (arith, h q, b)) v)
run-IsViewed n ((left, q, now) ∷ events) folders h b v =
    run-IsViewed n events (apply left q now folders)
      (left-AtMost n q now folders (omega (arith, b)) h) (omega (arith, b))
      (apply-IsViewed left q now folders (omega (arith, h q, b)) v)

abbrev pub start : OpenFolders
start = []

start-IsViewed : IsViewed start
unfolding find
start-IsViewed path n = absurd (n refl)

start-views : (path : Text) → views_of (find path start) ≡ 0
unfolding find
start-views path = refl

views-IsTracked : (o : Option OpenFolder) → 0 < views_of o → o ≢ none
views-IsTracked none h e = absurd (ground arith)
views-IsTracked (some f) h e = absurd (ground arith)

start-AtMost : AtMost 0 start
start-AtMost path = rw (start-views path) (omega arith)

-- After events of which fewer than 2 ^ 32 - 1 enter, a folder is tracked exactly while views that
-- entered it have not left it, and the recorded count is the number of those views. A leave with no view before it counts for nothing.
pub run_lem :
    (path : Text) (events : List Event)
    → entries events + 1 < 2 ^ 32
    → (views_of (find path (run events start)) ≡ views_by path 0 events)
      × ((find path (run events start) ≢ none) ↔ (0 < views_by path 0 events))
run_lem path events few = (
  counted,
  (
    (λ n.
        rw (sym counted)
          (run-IsViewed 0 events start start-AtMost (omega (arith, few)) start-IsViewed path n)),
    (λ h. views-IsTracked (find path (run events start)) (rw counted h)),
  ),
)
  where
    counted : views_of (find path (run events start)) ≡ views_by path 0 events
    counted =
        run-views 0 path events start start-AtMost (omega (arith, few))
        ∙ ap (λ n. views_by path n events) (start-views path)

-- ===== src/Daemon/Refresh.antt =====
-- daemon/src/fs_refresh.rs: the cooldown, the revalidation of a listing and the sweep.
use kio_protondrive.Base.{
  ℕ, suc, ◌-◌, Text, str, same, ltb, decimal, Bool, true, false, ◌||◌, [], ◌∷◌, ◌++◌, List, Option,
  none, some, Result, ok, err, pure, attempt, ◌>>=◌, ◌>>◌, if◌then◌else◌,
}
use mathlib.Core.List.{map}
use kio_protondrive.Table.{Table, find, upsert}
use kio_protondrive.Outside.{Outside, DriveError, not_found}
use kio_protondrive.Entry.{NodeEntry, ListItem, section, node, display_name}
use kio_protondrive.Store.{Store, Op, outside}
use kio_protondrive.Cli.Commands.{list_dir, stat_path}
use kio_protondrive.Cli.Moves.{join}
use kio_protondrive.Cache.Pins.{is_some}
use kio_protondrive.Cache.Nodes.{
  cached_listing, store_listing, invalidate_listing, store_stat, invalidate_stat,
  all_cached_stat_paths, all_cached_listing_parents,
}

-- In seconds.
abbrev pub revalidate_cooldown : ℕ
revalidate_cooldown = 10

unfoldable pub drive_url : Text → Text
drive_url path = str "protondrive:" ++ path

-- `last.retain(|_, at| at.elapsed() < REVALIDATE_COOLDOWN)`
unfoldable pub forget_old : ℕ → Table ℕ → Table ℕ
forget_old now [] = []
forget_old now ((k, at) ∷ t) =
    let rest = forget_old now t in
    if ltb (now - at) revalidate_cooldown then (k, at) ∷ rest else rest

-- Whether the folder is due, and the times of the last revalidations from then on.
unfoldable pub claim_revalidation : Text → ℕ → Table ℕ → Bool × Table ℕ
unfolding forget_old
claim_revalidation parent now last =
    let recent = forget_old now last in
    if is_some (find parent recent) then (false, recent) else (true, upsert parent now recent)

unfoldable pub only_nodes : List ListItem → List NodeEntry
only_nodes [] = []
only_nodes (section _ ∷ items) = only_nodes items
only_nodes (node n ∷ items) = n ∷ only_nodes items

unfoldable pub child_paths : Text → List NodeEntry → List Text
child_paths parent [] = []
child_paths parent (n ∷ nodes) = join parent (display_name n) ∷ child_paths parent nodes

unfoldable pub length : List Text → ℕ
length [] = 0
length (_ ∷ xs) = suc (length xs)

-- `busctl` and `emit_string_list_args`
unfoldable pub emit_string_list_args : Text → Text → List Text → List Text
unfolding length
emit_string_list_args interface member values =
    str "busctl"
    ∷ str "--user"
    ∷ str "emit"
    ∷ str "/"
    ∷ interface
    ∷ member
    ∷ str "as"
    ∷ decimal (length values)
    ∷ values

unfoldable pub emit_string_args : Text → Text → Text → List Text
emit_string_args interface member value =
    str "busctl" ∷ str "--user" ∷ str "emit" ∷ str "/" ∷ interface ∷ member ∷ str "s" ∷ value ∷ []

-- A set of paths: one that is there is not added again. (The source keeps it sorted.)
unfoldable pub member_of : Text → List Text → Bool
member_of p [] = false
member_of p (q ∷ qs) = same q p || member_of p qs

unfoldable pub insert : Text → List Text → List Text
unfolding member_of
insert p ps = if member_of p ps then ps else p ∷ ps

unfoldable pub insert_all : List Text → List Text → List Text
unfolding insert
insert_all [] ps = ps
insert_all (q ∷ qs) ps = insert_all qs (insert q ps)

module _ (o : Outside) where
  open o use {World, launch}

  abbrev pub emit : List Text → Op o (Unit {0})
  emit args = outside o (λ w. (ok tt, launch args w))

  -- `notify_files_changed` and `notify_paths_changed`: nothing is sent for no values.
  unfoldable pub notify : Text → Text → List Text → Op o (Unit {0})
  unfolding outside
  notify interface member [] = pure tt
  notify interface member (v ∷ vs) = emit (emit_string_list_args interface member (v ∷ vs))

  unfoldable pub notify_files_changed : List Text → Op o (Unit {0})
  unfolding notify
  notify_files_changed = notify (str "org.kde.KDirNotify") (str "FilesChanged")

  unfoldable pub notify_paths_changed : List Text → Op o (Unit {0})
  unfolding notify
  notify_paths_changed = notify (str "org.kde.protondrive.OverlayIcon") (str "PathsChanged")

  unfoldable pub fetch_listing : Text → Op o (List NodeEntry)
  unfolding outside only_nodes
  fetch_listing parent = do items ← outside o (list_dir o parent); pure (only_nodes items)

  -- `cached_listing(parent).ok().flatten()`
  abbrev pub ok_flatten : {A : Type 0} → Result (Option A) DriveError → Option A
  ok_flatten (ok r) = r
  ok_flatten (err _) = none

  -- A fetched listing that differs from what was cached. `equal` is `==` of node lists.
  unfoldable pub listing_changed : Text → List NodeEntry → Op o Bool
  unfolding outside notify_paths_changed
  listing_changed parent nodes = do
    attempt (store_listing o parent nodes)
    emit (emit_string_args (str "org.kde.KDirNotify") (str "FilesAdded") (drive_url parent))
    notify_paths_changed (child_paths parent nodes)
    pure true

  module _ (equal : List NodeEntry → List NodeEntry → Bool) where
    abbrev pub is_same : Option (List NodeEntry) → List NodeEntry → Bool
    is_same none nodes = false
    is_same (some old) nodes = equal old nodes

    abbrev pub on_fetched :
        Text → Option (List NodeEntry) → Result (List NodeEntry) DriveError → Op o Bool
    on_fetched parent previous (ok nodes) =
        if is_same previous nodes then pure false else listing_changed parent nodes
    on_fetched parent previous (err (not_found _)) =
        attempt (invalidate_listing o parent) >>= λ _. pure false
    on_fetched parent previous (err e) = pure false

    -- The part of `revalidate_listing` behind the guard and the claim.
    unfoldable pub revalidate_claimed : Text → Op o Bool
    unfolding fetch_listing listing_changed
    revalidate_claimed parent = do
      previous ← attempt (cached_listing o parent)
      fetched ← attempt (fetch_listing parent)
      on_fetched parent (ok_flatten previous) fetched

    -- `revalidate_listing`, at a time and with the times of the last revalidations.
    unfoldable pub revalidate_listing :
        Text → ℕ → Table ℕ → Store World → (Result Bool DriveError × Store World) × Table ℕ
    unfolding claim_revalidation revalidate_claimed
    revalidate_listing parent now last s =
        if same parent (str "/") || same parent []
        then ((ok false, s), last)
        else let (due, last') = claim_revalidation parent now last in
          ((if due then revalidate_claimed parent s else (ok false, s)), last')

  abbrev pub on_stat : Text → List Text → Result NodeEntry DriveError → Op o (List Text)
  on_stat path changed (ok n) = attempt (store_stat o path n) >>= λ _.
      notify_files_changed (drive_url path ∷ []) >>= λ _. pure (insert path changed)
  on_stat path changed (err (not_found _)) = attempt (invalidate_stat o path) >>= λ _. pure changed
  on_stat path changed (err e) = pure changed

  unfoldable pub refresh_stats : List Text → List Text → Op o (List Text)
  unfolding outside notify_files_changed
  refresh_stats [] changed = pure changed
  refresh_stats (path ∷ rest) changed =
      attempt (outside o (stat_path o path)) >>= λ r. on_stat path changed r >>= refresh_stats rest

  abbrev pub on_listing : Text → List Text → Result (List NodeEntry) DriveError → Op o (List Text)
  on_listing parent changed (ok nodes) = attempt (store_listing o parent nodes) >>= λ _.
      notify_files_changed (map drive_url (child_paths parent nodes)) >>= λ _.
      pure (insert_all (child_paths parent nodes) changed)
  on_listing parent changed (err (not_found _)) =
      attempt (invalidate_listing o parent) >>= λ _. pure changed
  on_listing parent changed (err e) = pure changed

  unfoldable pub refresh_listings : List Text → List Text → Op o (List Text)
  unfolding fetch_listing notify_files_changed
  refresh_listings [] changed = pure changed
  refresh_listings (parent ∷ rest) changed =
      attempt (fetch_listing parent) >>= λ r. on_listing parent changed r >>= refresh_listings rest

  abbrev pub or_nothing : Result (List Text) DriveError → List Text
  or_nothing (ok xs) = xs
  or_nothing (err _) = []

  unfoldable pub refresh_all : Op o (Unit {0})
  unfolding refresh_stats refresh_listings notify_paths_changed
  refresh_all = do
    stat_paths ← attempt (all_cached_stat_paths o)
    changed ← refresh_stats (or_nothing stat_paths) []
    parents ← attempt (all_cached_listing_parents o)
    changed' ← refresh_listings (or_nothing parents) changed
    notify_paths_changed changed'

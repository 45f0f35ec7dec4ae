-- ===== src/Bridge/Shares.antt =====
-- core/src/bridge.rs: the calls of the share dialog, and the refresh of the stat behind them.
use kio_protondrive.Base.{
  ℕ, Text, str, [], ◌∷◌, ◌++◌, List, Bool, true, false, Option, none, some, Result, ok, err, pure,
  attempt, ◌>>=◌, ◌>>◌,
}
use mathlib.Core.List.{map}
use kio_protondrive.Entry.{NodeEntry, PublicLink, unwrap_or}
use kio_protondrive.Outside.{Outside, DriveError, not_found}
use kio_protondrive.Store.{Op, outside}
use kio_protondrive.Sharing
use kio_protondrive.Sharing.{ShareMember, SharingStatus}
use kio_protondrive.Cli.Commands
use kio_protondrive.Cache.Nodes.{store_stat, invalidate_stat}
use kio_protondrive.Bridge.Entries.{Places, with_cache}

pub record FfiShareMember : Type 0 where
  pub email : Text
  pub role : Text
  pub pending : Bool

pub record FfiSharingStatus : Type 0 where
  pub members : List FfiShareMember
  pub editors_can_share : Bool
  pub has_public_link : Bool
  pub public_link_url : Text
  pub public_link_role : Text
  pub public_link_expiration : Text
  pub public_link_downloads : ℕ

pub record FfiPublicLink : Type 0 where
  pub url : Text
  pub role : Text
  pub expiration : Text
  pub downloads : ℕ

unfoldable pub share_member_to_ffi : ShareMember → FfiShareMember
share_member_to_ffi m = record { email = m.email; role = m.role; pending = m.pending }

abbrev pub flattened : SharingStatus → Option PublicLink → FfiSharingStatus
flattened status (some link) = record {
  members = map share_member_to_ffi status.members;
  editors_can_share = status.editors_can_share;
  has_public_link = true;
  public_link_url = link.url;
  public_link_role = link.role;
  public_link_expiration = unwrap_or link.expiration_time [];
  public_link_downloads = link.number_of_initialized_downloads;
}
flattened status none = record {
  members = map share_member_to_ffi status.members;
  editors_can_share = status.editors_can_share;
  has_public_link = false;
  public_link_url = [];
  public_link_role = [];
  public_link_expiration = [];
  public_link_downloads = 0;
}

unfoldable pub link_to_ffi : PublicLink → FfiPublicLink
link_to_ffi link = record {
  url = link.url;
  role = link.role;
  expiration = unwrap_or link.expiration_time [];
  downloads = link.number_of_initialized_downloads;
}

-- The command that tells the overlay plugin that a path has changed.
unfoldable pub overlay_changed_args : Text → List Text
overlay_changed_args path =
    str "dbus-send"
    ∷ str "--session"
    ∷ str "--type=signal"
    ∷ str "/"
    ∷ str "org.kde.protondrive.OverlayIcon.OverlayChanged"
    ∷ (str "string:" ++ path)
    ∷ []

module _ (o : Outside) where
  open o use {World, launch}

  unfoldable pub notify_overlay_changed : Text → Op o (Unit {0})
  unfolding outside overlay_changed_args
  notify_overlay_changed path = outside o (λ w. (ok tt, launch (overlay_changed_args path) w))

  abbrev pub on_fresh_stat : Text → Result NodeEntry DriveError → Op o (Unit {0})
  on_fresh_stat path (ok node) =
      attempt (store_stat o path node) >>= λ _. notify_overlay_changed path
  on_fresh_stat path (err (not_found _)) =
      attempt (invalidate_stat o path) >>= λ _. notify_overlay_changed path
  on_fresh_stat path (err e) = pure tt

module _ (o : Outside) (at : Places) where
  open o use {World}

  -- The body of the thread that `refresh_stat_cache_async` starts.
  unfoldable pub refresh_stat_cache : Text → Op o (Unit {0})
  unfolding with_cache outside notify_overlay_changed
  refresh_stat_cache path =
      with_cache o at (attempt (outside o (Commands.stat_path o path)) >>= on_fresh_stat o path)

  unfoldable pub sharing_status : Text → Op o FfiSharingStatus
  unfolding outside share_member_to_ffi
  sharing_status path = do
    status ← outside o (Sharing.status o path)
    pure (flattened status status.public_link)

  -- A call that changes the sharing gives the thread that it leaves behind, which runs at any time
  -- from then on.
  unfoldable pub sharing_invite : Text → Text → Text → Text → Op o (Op o (Unit {0}))
  unfolding outside
  sharing_invite path email role message = do
    outside o (Sharing.invite o path email role message)
    pure (refresh_stat_cache path)

  unfoldable pub sharing_remove_member : Text → Text → Op o (Op o (Unit {0}))
  unfolding outside
  sharing_remove_member path email = do
    outside o (Sharing.remove_member o path email)
    pure (refresh_stat_cache path)

  unfoldable pub sharing_set_link :
      Text → Text → Text → Text → Op o (FfiPublicLink × Op o (Unit {0}))
  unfolding outside link_to_ffi
  sharing_set_link path role password expiration = do
    link ← outside o (Sharing.set_link o path role password expiration)
    pure (link_to_ffi link, refresh_stat_cache path)

  unfoldable pub sharing_remove_link : Text → Op o (Op o (Unit {0}))
  unfolding outside
  sharing_remove_link path = do
    outside o (Sharing.remove_link o path)
    pure (refresh_stat_cache path)

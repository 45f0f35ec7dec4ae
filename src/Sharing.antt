-- ===== src/Sharing.antt =====
-- core/src/sharing.rs: who has access to a node, as the share dialog shows it.
use kio_protondrive.Base.{Text, str, same, Bool, false, List, ◌++◌, Option, Action, pure, ◌>>=◌}
use mathlib.Core.List.{map}
use kio_protondrive.Entry.{PublicLink, Invitation, Member, unwrap_or}
use kio_protondrive.Entry
use kio_protondrive.Outside.{Outside, DriveError}
use kio_protondrive.Cli.Sharing

pub record ShareMember : Type 0 where
  pub email : Text
  pub role : Text
  pub pending : Bool

pub record SharingStatus : Type 0 where
  pub members : List ShareMember
  pub editors_can_share : Bool
  pub public_link : Option PublicLink

unfoldable pub of_member : Member → ShareMember
of_member m = record { email = m.invitee_email; role = m.role; pending = false }

unfoldable pub of_invitation : Invitation → ShareMember
of_invitation i = record {
  email = i.invitee_email;
  role = i.role;
  pending = same (unwrap_or i.state (str "pending")) (str "pending");
}

-- The three lists of the CLI as one.
unfoldable pub merged : Entry.SharingStatus → SharingStatus
unfolding of_member of_invitation
merged raw = record {
  members =
      map of_member raw.members
      ++ (map of_invitation raw.proton_invitations ++ map of_invitation raw.non_proton_invitations);
  editors_can_share = raw.editors_can_share;
  public_link = raw.url_access;
}

module _ (o : Outside) where
  open o use {World}

  unfoldable pub status : Text → Action World SharingStatus DriveError
  unfolding merged
  status path = do raw ← Sharing.sharing_status o path; pure (merged raw)

  unfoldable pub invite : Text → Text → Text → Text → Action World (Unit {0}) DriveError
  invite path email role message = Sharing.sharing_invite o path email role message

  unfoldable pub remove_member : Text → Text → Action World (Unit {0}) DriveError
  remove_member path email = Sharing.sharing_remove_member o path email

  unfoldable pub set_link : Text → Text → Text → Text → Action World PublicLink DriveError
  set_link path role password expiration = Sharing.sharing_set_link o path role password expiration

  unfoldable pub remove_link : Text → Action World (Unit {0}) DriveError
  remove_link path = Sharing.sharing_remove_link o path

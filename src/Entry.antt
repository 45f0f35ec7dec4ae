-- ===== src/Entry.antt =====
-- core/src/entry.rs: the shapes of the CLI's JSON answers, and what a node shows of itself.
use kio_protondrive.Base.{
  ℕ, Text, str, same, leb, ◌==◌, Bool, false, ◌||◌, ◌&&◌, Option, none, some, List, [], ◌∷◌, ◌++◌,
  hex_byte, split_once, rsplit_once, if◌then◌else◌,
}

-- `ok` is not read by the program: `value` alone decides.
pub record DecryptedField : Type 0 where
  pub ok : Bool
  pub value : Option Text

pub record PhotoDetails : Type 0 where
  pub tags : List ℕ

pub record ActiveRevision : Type 0 where
  pub claimed_size : Option ℕ

pub record NodeEntry : Type 0 where
  pub uid : Text
  pub name : DecryptedField
  pub node_type : Text
  pub media_type : Option Text
  pub total_storage_size : Option ℕ
  pub active_revision : Option ActiveRevision
  pub creation_time : Text
  pub modification_time : Text
  pub is_shared : Bool
  pub is_shared_by_url : Bool
  pub photo : Option PhotoDetails

abbrev pub or_else {ℓ} : {A : Type ℓ} → Option A → Option A → Option A
or_else (some a) b = some a
or_else none b = b

abbrev pub unwrap_or {ℓ} : {A : Type ℓ} → Option A → A → A
unwrap_or (some a) d = a
unwrap_or none d = d

abbrev pub and_then {ℓ κ} : {A : Type ℓ} {B : Type κ} → Option A → (A → Option B) → Option B
and_then (some a) f = f a
and_then none f = none

unfoldable pub size : NodeEntry → ℕ
size n =
    unwrap_or (or_else (and_then n.active_revision (λ r. r.claimed_size)) n.total_storage_size) 0

unfoldable pub is_folder : NodeEntry → Bool
is_folder n = same n.node_type (str "folder") || same n.node_type (str "album")

unfoldable pub display_name : NodeEntry → Text
display_name n = unwrap_or n.name.value n.uid

unfoldable pub is_alphanumeric : ℕ → Bool
is_alphanumeric b = (leb 48 b && leb b 57) || (leb 65 b && leb b 90) || (leb 97 b && leb b 122)

-- `-._~`
unfoldable pub is_mark : ℕ → Bool
is_mark b = b == 45 || b == 46 || b == 95 || b == 126

-- A byte, as itself or as `%XX`.
unfoldable pub encode_byte : ℕ → Text
unfolding is_alphanumeric is_mark hex_byte
encode_byte b = if is_alphanumeric b || is_mark b then b ∷ [] else 37 ∷ hex_byte b

unfoldable pub percent_encode : Text → Text
unfolding encode_byte
percent_encode [] = []
percent_encode (b ∷ s) = encode_byte b ++ percent_encode s

-- "doc" or "sheet", by the media type.
pub docs_kind : Text → Option Text
docs_kind m =
    if same m (str "application/vnd.proton.doc")
    then some (str "doc")
    else if same m (str "application/vnd.proton.sheet")
    then some (str "sheet")
    else none

pub docs_url : Text → Text × Text → Text
docs_url kind (volume_id, link_id) =
    str "https://docs.proton.me/"
    ++ (kind
        ++ (str "?mode=open&volumeId="
            ++ (percent_encode volume_id ++ (str "&linkId=" ++ percent_encode link_id))))

unfoldable pub web_url : NodeEntry → Option Text
unfolding docs_kind docs_url
web_url n =
    and_then n.media_type λ m.
      and_then (docs_kind m) λ kind. and_then (split_once b'~' n.uid) λ p. some (docs_url kind p)

pub record VirtualSection : Type 0 where
  pub path : Text

-- The last path segment, or the whole path where there is no `/`.
unfoldable pub section_name : VirtualSection → Text
section_name s = elim (rsplit_once b'/' s.path) [ some (_, name) ↦ name | none ↦ s.path ]

pub data ListItem : Type 0 where
  section : VirtualSection → ListItem
  node : NodeEntry → ListItem

pub record TransferSummary : Type 0 where
  pub transferred_items : ℕ
  pub transferred_bytes : ℕ
  pub skipped_items : ℕ
  pub failed_items : ℕ

pub record TrashOutcome : Type 0 where
  pub uid : Text
  pub ok : Bool

-- `error` is the name in the CLI's error object.
pub record CopyOutcome : Type 0 where
  pub uid : Text
  pub ok : Bool
  pub error : Option Text

pub record Invitation : Type 0 where
  pub invitee_email : Text
  pub role : Text
  pub state : Option Text

pub record Member : Type 0 where
  pub invitee_email : Text
  pub role : Text

pub record PublicLink : Type 0 where
  pub url : Text
  pub role : Text
  pub expiration_time : Option Text
  pub number_of_initialized_downloads : ℕ

pub record SharingStatus : Type 0 where
  pub proton_invitations : List Invitation
  pub non_proton_invitations : List Invitation
  pub members : List Member
  pub editors_can_share : Bool
  pub url_access : Option PublicLink

-- `SharingStatus::default()`
unfoldable pub unshared : SharingStatus
unshared = record {
  proton_invitations = [];
  non_proton_invitations = [];
  members = [];
  editors_can_share = false;
  url_access = none;
}

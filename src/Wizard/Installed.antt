-- ===== src/Wizard/Installed.antt =====
-- What `route_cli_install` of wizard/src/main.rs does to the installed CLI.
use mathlib.Core.Path.{subst}
use kio_protondrive.Base.{
  sym, Text, str, ◌≡◌, ◌⊎◌, inl, inr, refl, ◌∙◌, Option, none, some, Result, ok, err, resume, lift,
}
use kio_protondrive.Outside.{Outside}
use kio_protondrive.Update.{CliUpdateError, Release, ReleaseFile, file_for_platform, parse_manifest}
use kio_protondrive.Update.Install
use kio_protondrive.Update.Install.{
  current_platform, fetch_args, fetch_latest_stable, tmp_path, download_args, calling, fetched,
  manifest_url,
}
use kio_protondrive.Update.Verified.{IsApart, WasVerified, download_and_install-Outcome}
use kio_protondrive.Daemon.Config.{Files}
use kio_protondrive.Wizard.Settings.{Session}
use kio_protondrive.Wizard.Keys
use kio_protondrive.Wizard.Routes.{
  Machine, install_folder, install_path, install_file, install_release, install_on,
  route_cli_install,
}

module _ (o : Outside) (m : Machine (o.World)) (f : Files (o.World)) (n : Session (o.World))
    (t : Keys.Tools (o.World)) (i : Install.Tools (o.World)) (config_path : Text)
    (config_parent : Option Text) {A : Type 0} (seen : o.World → A) (home : Text) where
  open o use {World}

  abbrev pub tmp : Text
  tmp =
      tmp_path o i (install_folder o m f n t i config_path config_parent home) (str "proton-drive")

  -- The world behind the download of a file.
  abbrev pub downloaded : ReleaseFile → World → World
  downloaded file w =
      (i.curl (download_args tmp file.url)
        (o.create_dir_all (install_folder o m f n t i config_path config_parent home) w).1).1

  -- The file is the one of the latest stable release for this machine, and `sha512sum` gives the
  -- checksum that the manifest has for it.
  pub record WasChecked (w : World) : Type 0 where
    pub release : Release
    pub platform : Text
    pub file : ReleaseFile
    pub is_latest : (fetch_latest_stable o i w).0 ≡ ok release
    pub is_of_machine : current_platform m.arch ≡ some platform
    pub is_listed : file_for_platform release.files platform ≡ some file
    pub verified : WasVerified o i file tmp (downloaded file (fetch_latest_stable o i w).1)

  -- The calls besides the rename change nothing of what is seen.
  abbrev pub IsAside : Type 0
  IsAside = IsApart o i seen tmp × ((v : World) → seen (i.curl fetch_args v).1 ≡ seen v)

  lifted-seen :
      {B C : Type 0} (r : Result B CliUpdateError × World) (g : B → Result C CliUpdateError)
      → seen (resume r (λ b. lift (g b))).1 ≡ seen r.1
  lifted-seen (ok b, w) g = refl
  lifted-seen (err e, w) g = refl

  fetched-seen : (w : World) → IsAside → seen (fetch_latest_stable o i w).1 ≡ seen w
  unfolding fetch_latest_stable
  fetched-seen w k =
      lifted-seen (calling o i (i.curl fetch_args) (fetched manifest_url) w)
        (λ e. parse_manifest (i.read_manifest e.stdout))
      ∙ k.1 w

  listed-WasChecked :
      (w : World) (platform : Text) (release : Release) (x : Option ReleaseFile)
      → IsAside
      → current_platform m.arch ≡ some platform
      → (fetch_latest_stable o i w).0 ≡ ok release
      → file_for_platform release.files platform ≡ x
      → let v = (fetch_latest_stable o i w).1 in
        (seen
            (install_file o m f n t i config_path config_parent release (some home) x platform v).1
          ≡ seen w)
        ⊎ WasChecked w
  listed-WasChecked w platform release none k p q e = inl (fetched-seen w k)
  listed-WasChecked w platform release (some file) k p q e =
      elim (download_and_install-Outcome o i seen file
        (install_path o m f n t i config_path config_parent home)
        (install_folder o m f n t i config_path config_parent home) (str "proton-drive")
        (fetch_latest_stable o i w).1 k.0) [
          | inl v ↦ inr (record {
            release = release;
            platform = platform;
            file = file;
            is_latest = q;
            is_of_machine = p;
            is_listed = e;
            verified = v;
          })
          | inr (h, _) ↦ inl (h ∙ fetched-seen w k)
        ]

  released-WasChecked :
      (w : World) (platform : Text) (r : Result Release CliUpdateError)
      → IsAside
      → m.home ≡ some home
      → current_platform m.arch ≡ some platform
      → (fetch_latest_stable o i w).0 ≡ r
      → (seen
            (install_release o m f n t i config_path config_parent platform
              (r, (fetch_latest_stable o i w).1)).1
          ≡ seen w)
        ⊎ WasChecked w
  released-WasChecked w platform (err e) k h p q = inl (fetched-seen w k)
  released-WasChecked w platform (ok release) k h p q =
      let v = (fetch_latest_stable o i w).1 in
      let x = file_for_platform release.files platform in
      subst
        (λ u.
          (seen (install_file o m f n t i config_path config_parent release u x platform v).1
            ≡ seen w)
          ⊎ WasChecked w)
        (sym h) (listed-WasChecked w platform release x k p q refl)

  platform-WasChecked :
      (w : World) (x : Option Text)
      → IsAside
      → m.home ≡ some home
      → current_platform m.arch ≡ x
      → (seen (install_on o m f n t i config_path config_parent x w).1 ≡ seen w) ⊎ WasChecked w
  platform-WasChecked w none k h p = inl refl
  platform-WasChecked w (some platform) k h p =
      released-WasChecked w platform (fetch_latest_stable o i w).0 k h p refl

  -- Where no call but the rename changes what is seen of the installed CLI: a request to install the
  -- CLI leaves it as it was, or the file is the one that the latest stable release lists for this
  -- machine, and `sha512sum` gives the checksum that the manifest has for it.
  pub route_cli_install-WasChecked :
      (w : World)
      → IsAside
      → m.home ≡ some home
      → (seen (route_cli_install o m f n t i config_path config_parent w).1 ≡ seen w) ⊎ WasChecked w
  unfolding route_cli_install
  route_cli_install-WasChecked w k h = platform-WasChecked w (current_platform m.arch) k h refl

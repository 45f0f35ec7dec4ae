-- ===== src/Update/Verified.antt =====
-- The destination of a download of core/src/cli_update.rs.
use kio_protondrive.Base.{
  Text, to_lowercase, true, some, Result, ok, err, resume, ◌≡◌, ◌⊎◌, inl, inr, refl, arith, ◌∙◌,
}
use kio_protondrive.Outside.{Outside}
use kio_protondrive.Update.{CliUpdateError, ReleaseFile}
use kio_protondrive.Update.Install.{
  Exit, Tools, checksum_of, fetched, summed, verified, io_error, calling, download_args, tmp_path,
  cleaned, download_and_install, download_and_install_inner,
}

module _ (o : Outside) (t : Tools (o.World)) where
  open o use {World}

  -- What can be seen of the destination is changed by no call but the rename.
  pub record IsApart {A : Type 0} (seen : World → A) (tmp : Text) : Type 0 where
    pub by_folder : (p : Text) (w : World) → seen (o.create_dir_all p w).1 ≡ seen w
    pub by_curl : (url : Text) (w : World) → seen (t.curl (download_args tmp url) w).1 ≡ seen w
    pub by_sum : (w : World) → seen (t.sha512sum tmp w).1 ≡ seen w
    pub by_mode : (w : World) → seen (t.make_executable tmp w).1 ≡ seen w
    pub by_removal : (w : World) → seen (o.remove_file tmp w).1 ≡ seen w

  -- `sha512sum` gives the checksum of the manifest for the file, as it stands in the world.
  abbrev pub WasVerified : ReleaseFile → Text → World → Type 0
  WasVerified file tmp w =
      (e : Exit) × ((t.sha512sum tmp w).0 ≡ ok e)
      × (e.success ≡ true)
      × (checksum_of e ≡ to_lowercase file.sha512)

  abbrev pub Outcome :
      {A : Type 0}
      → (World → A)
      → ReleaseFile
      → Text
      → World
      → World
      → Result (Unit {0}) CliUpdateError × World
      → Type 0
  Outcome seen file tmp downloaded before r =
      WasVerified file tmp downloaded
      ⊎ ((seen r.1 ≡ seen before) × ((e : CliUpdateError) × (r.0 ≡ err e)))

  module _ {A : Type 0} (seen : World → A) (file : ReleaseFile) (tmp : Text) (at : World) where
    -- A step that leaves the destination alone, and the steps behind it.
    step-Outcome :
        {B : Type 0} (before : World) (r : Result B CliUpdateError × World)
        (next : B → World → Result (Unit {0}) CliUpdateError × World)
        → seen r.1 ≡ seen before
        → ((b : B) → r.0 ≡ ok b → Outcome seen file tmp at r.1 (next b r.1))
        → Outcome seen file tmp at before (resume r next)
    step-Outcome before (err e, w) next same_dest k = inr (same_dest, (e, refl))
    step-Outcome before (ok b, w) next same_dest k = elim (k b refl) [
      | inl v ↦ inl v
      | inr (h, e) ↦ inr (h ∙ same_dest, e)
    ]

    summed-ok :
        (r : Result Exit Text) (e : Exit) → summed r ≡ ok e → (r ≡ ok e) × (e.success ≡ true)
    summed-ok (ok x) e h = ground arith
    summed-ok (err m) e h = absurd (cc)

    verified-ok : (e : Exit) → verified file e ≡ ok tt → checksum_of e ≡ to_lowercase file.sha512
    verified-ok e h = ground arith

    behind_sum :
        (e : Exit) (w : World) (next : Unit {0} → World → Result (Unit {0}) CliUpdateError × World)
        → (t.sha512sum tmp at).0 ≡ ok e
        → e.success ≡ true
        → Outcome seen file tmp at w (resume (verified file e, w) next)
    behind_sum e w next h s = go (verified file e) refl
      where
        go :
            (r : Result (Unit {0}) CliUpdateError)
            → verified file e ≡ r
            → Outcome seen file tmp at w (resume (r, w) next)
        go (ok tt) v = inl (e, h, s, verified-ok e v)
        go (err m) v = inr (refl, (m, refl))

    inner-Outcome :
        (dest : Text) (w : World)
        → IsApart seen tmp
        → at ≡ (t.curl (download_args tmp file.url) w).1
        → Outcome seen file tmp at w (download_and_install_inner o t file dest tmp w)
    unfolding download_and_install_inner
    inner-Outcome dest w k q =
        step-Outcome w (calling o t (t.curl (download_args tmp file.url)) (fetched file.url) w) _
          (k.by_curl file.url w)
          λ _ _.
            let w' = (t.curl (download_args tmp file.url) w).1 in
            step-Outcome w' (calling o t (t.sha512sum tmp) summed w') _ (k.by_sum w') λ e h.
              let (ran, fine) = summed-ok (t.sha512sum tmp w').0 e h in
              behind_sum e (t.sha512sum tmp w').1 _ (rw q ran) fine

    cleaned-Outcome :
        (before : World) (r : Result (Unit {0}) CliUpdateError × World)
        → IsApart seen tmp
        → Outcome seen file tmp at before r
        → Outcome seen file tmp at before (cleaned o t tmp r)
    cleaned-Outcome before r k (inl v) = inl v
    cleaned-Outcome before (ok a, w) k (inr h) = inr h
    cleaned-Outcome before (err e, w) k (inr (h, _)) = inr (k.by_removal w ∙ h, (e, refl))

  -- Where no call but the rename changes what is seen of the destination: a download leaves it as it
  -- was and fails, or `sha512sum` gives the checksum of the manifest for the temporary file as `curl`
  -- has left it.
  pub download_and_install-Outcome :
      {A : Type 0} (seen : World → A) (file : ReleaseFile) (dest parent name : Text) (w : World)
      → IsApart seen (tmp_path o t parent name)
      → Outcome seen file
          (tmp_path o t parent name)
          (t.curl
            (download_args (tmp_path o t parent name) file.url)
            (o.create_dir_all parent w).1).1
          w
          (download_and_install o t file dest (some parent) name w)
  unfolding download_and_install
  download_and_install-Outcome seen file dest parent name w k =
      let tmp = tmp_path o t parent name in
      let w' = (o.create_dir_all parent w).1 in
      let at = (t.curl (download_args tmp file.url) w').1 in
      step-Outcome seen file tmp at w (calling o t (o.create_dir_all parent) io_error w) _
        (k.by_folder parent w)
        λ _ _.
          cleaned-Outcome seen file tmp at w' (download_and_install_inner o t file dest tmp w') k
            (inner-Outcome seen file tmp at dest w' k refl)

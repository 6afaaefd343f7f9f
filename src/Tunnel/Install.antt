-- ===== src/Tunnel/Install.antt =====
-- Installing the program: what ends up in the place where it is run from.
use tailclip.Base.{
  ◌≡◌, refl, sym, ◌∙◌, Bool, true, false, Option, none, some, [], Bytes, arith, same, same_iff,
  if◌then◌else◌, ok, err,
}
use tailclip.Base.Map.{get, put, delete, get-put, get-delete, get-put_self}
use tailclip.Tunnel.{
  system, Binary, Disk, Manifest, Done, Calls, current_binary, verify, fill, removing, install_into,
  install_companion, join,
}

module _ (digest : Bytes → Bytes) (manifest : Manifest) (platform : Bytes) where
  abbrev check_at : Bytes → Disk → Done
  check_at = verify digest manifest platform

  verify_same : (p q : Bytes) (d e : Disk) → get p d ≡ get q e → check_at p d ≡ check_at q e
  unfolding verify
  verify_same p q d e h = rw h refl

  -- What the target holds after a run: a checked program, or what it held before.
  abbrev pub Outcome : Bytes → Disk → Done × Disk → Type 0
  Outcome target d (ok _, after) = check_at target after ≡ ok tt
  Outcome target d (err e, after) = get target after ≡ get target d

  -- Two disks that show the same file at the target.
  Outcome-removing :
      (c : Calls) (target : Bytes) (d : Disk) (r : Done × Disk)
      → same c.temp_name target ≡ false
      → Outcome target d r
      → Outcome target d (removing c r)
  unfolding removing
  Outcome-removing c target d (ok _, e) h o =
      verify_same target target (removing c (ok tt, e)).1 e
        (ground (arith, get-delete c.temp_name target e))
      ∙ o
  Outcome-removing c target d (err x, e) h o = ground (arith, get-delete c.temp_name target e)

  fill-Outcome :
      (c : Calls) (target content : Bytes) (d : Disk)
      → same c.temp_name target ≡ false
      → Outcome target d (fill digest manifest platform c target content d)
  unfolding fill
  fill-Outcome c target content d h =
      let t = c.temp_name in
      let full = put t content d in
      ground (
        arith,
        get-put t target content d,
        get-put t target c.partial d,
        verify_same target t (put target content (delete t full)) full
            (get-put_self target content (delete t full) ∙ sym (get-put_self t content d)),
      )

  Outcome-same :
      (target : Bytes) (d e : Disk) (r : Done × Disk)
      → get target e ≡ get target d
      → Outcome target e r
      → Outcome target d r
  Outcome-same target d e (ok _, after) h o = o
  Outcome-same target d e (err x, after) h o = o ∙ h

  Outcome-if :
      (b : Bool) (target : Bytes) (d : Disk) (r s : Done × Disk)
      → Outcome target d r
      → Outcome target d s
      → Outcome target d (if b then r else s)
  Outcome-if true target d r s p q = p
  Outcome-if false target d r s p q = q

  filled-Outcome :
      (c : Calls) (target content : Bytes) (d : Disk)
      → same c.temp_name target ≡ false
      → Outcome target d
          (removing c (fill digest manifest platform c target content (put c.temp_name [] d)))
  filled-Outcome c target content d h =
      let e = put c.temp_name [] d in
      let r = fill digest manifest platform c target content e in
      Outcome-removing c target d r h (
        Outcome-same target d e r (ground (arith, get-put c.temp_name target [] d))
          (fill-Outcome c target content e h))

  install_into-Outcome :
      (c : Calls) (source target : Bytes) (d : Disk)
      → same c.temp_name target ≡ false
      → Outcome target d (install_into digest manifest platform c source target d)
  unfolding install_into
  install_into-Outcome c source target d h =
      by_check (check_at target d) refl (check_at source d) refl c.opened refl
    where
      by_check :
          (r : Done)
          → check_at target d ≡ r
          → (s : Done) → check_at source d ≡ s
          → (o : Option Bytes) → c.opened ≡ o
          → Outcome target d (install_into digest manifest platform c source target d)
      by_check (ok _) p s q o e = rw (install_into, p) p
      by_check (err x) p (err y) q o e = rw (install_into, p, q) refl
      by_check (err x) p (ok _) q none e =
          rw (install_into, p, q, e)
            (Outcome-if c.mkdir target d (err system, d) (err system, d) refl refl)
      by_check (err x) p (ok _) q (some content) e =
          let r =
            removing c (fill digest manifest platform c target content (put c.temp_name [] d)) in
          rw (install_into, p, q, e)
            (Outcome-if c.mkdir target d (err system, d)
              (if c.create_temp then (err system, d) else r) refl
              (Outcome-if c.create_temp target d (err system, d) r refl
                (filled-Outcome c target content d h)))

  -- Whatever the calls of an installation do, and whatever becomes of the source while it is
  -- copied: an installation that reports success leaves a program with the pinned digest in its
  -- place, and one that fails leaves there what it held. The manifest names a program for the
  -- platform, and the temporary file has another name than it.
  pub install_companion-Outcome :
      (c : Calls) (source_dir target_dir : Bytes) (b : Binary) (d : Disk)
      → current_binary manifest platform ≡ ok b
      → same c.temp_name (join target_dir b.filename) ≡ false
      → Outcome
          (join target_dir b.filename)
          d
          (install_companion digest manifest platform c source_dir target_dir d)
  unfolding install_companion
  install_companion-Outcome c source_dir target_dir b d e h =
      rw (install_companion, e)
        (install_into-Outcome c (join source_dir b.filename) (join target_dir b.filename) d h)

  fill_elsewhere :
      (c : Calls) (target content p : Bytes) (d : Disk)
      → same c.temp_name p ≡ false
      → same target p ≡ false
      → get p (fill digest manifest platform c target content d).1 ≡ get p d
  unfolding fill
  fill_elsewhere c target content p d h k =
      let t = c.temp_name in
      let full = put t content d in
      ground (
        arith,
        get-put t p content d,
        get-put t p c.partial d,
        get-put target p content (delete t full),
        get-delete t p full,
      )

  removing_elsewhere :
      (c : Calls) (p : Bytes) (r : Done × Disk)
      → same c.temp_name p ≡ false
      → get p (removing c r).1 ≡ get p r.1
  unfolding removing
  removing_elsewhere c p r h = ground (arith, get-delete c.temp_name p r.1)

  removing_temp :
      (c : Calls) (r : Done × Disk) → c.remove ≡ false → get c.temp_name (removing c r).1 ≡ none
  unfolding removing
  removing_temp c r h =
      rw h
        (get-delete c.temp_name c.temp_name r.1 ∙ ground (arith, same_iff c.temp_name c.temp_name))

  -- Files other than the program and the temporary file stay as they were; the temporary file is
  -- gone in the end, unless its removal fails.
  pub install_companion_elsewhere :
      (c : Calls) (source_dir target_dir p : Bytes) (b : Binary) (d : Disk)
      → current_binary manifest platform ≡ ok b
      → same c.temp_name p ≡ false
      → same (join target_dir b.filename) p ≡ false
      → c.remove ≡ false
      → get c.temp_name d ≡ none
      → (get p (install_companion digest manifest platform c source_dir target_dir d).1 ≡ get p d)
        × (get c.temp_name (install_companion digest manifest platform c source_dir target_dir d).1
            ≡ none)
  unfolding install_companion install_into
  install_companion_elsewhere c source_dir target_dir p b d e h k m n =
      let t = c.temp_name in let target = join target_dir b.filename in by_content c.opened refl
    where
      by_content :
          (o : Option Bytes)
          → c.opened ≡ o
          → (get p (install_companion digest manifest platform c source_dir target_dir d).1
              ≡ get p d)
            × (get c.temp_name
                  (install_companion digest manifest platform c source_dir target_dir d).1
                ≡ none)
      by_content none o = ground arith
      by_content (some content) o =
          let start = put c.temp_name [] d in
          let target = join target_dir b.filename in
          let r = fill digest manifest platform c target content start in
          ground (
            arith,
            removing_elsewhere c p r h,
            fill_elsewhere c target content p start h k,
            get-put c.temp_name p [] d,
            removing_temp c r m,
          )

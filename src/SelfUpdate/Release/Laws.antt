-- ===== src/SelfUpdate/Release/Laws.antt =====
-- Only a binary of an archive with the right digest is downloaded.
use mathlib.Core.Path.{subst}
use Prim.Native.String.{◌++◌}
use ppanel_node.Base.{
  if◌then◌else◌, Bool-cases, inl, inr, ◌⊎◌, sym, ap, ◌∙◌, ℕ, String, Option, none, some, List, [],
  ◌∷◌, Bool, true, false, ◌≡◌, refl, arith,
}
use ppanel_node.Base.Eq.{◌==◌, string_eq}
use ppanel_node.SelfUpdate.Version.{parse_sha256}
use ppanel_node.SelfUpdate.Release.{
  Asset, Release, find_urls, asset_urls, Member, Sources, Outcome, ok, err, or_err, guard, ◌>>=◌,
  same_codes, find_member, download_binary, UpdateError, fetch_failed, digest_unreadable,
  digest_mismatch, bad_archive,
}

same_codes-eq : (xs ys : List ℕ) → same_codes xs ys ≡ true → xs ≡ ys
unfolding same_codes
same_codes-eq [] [] h = refl
same_codes-eq [] (y ∷ ys) h = cc
same_codes-eq (x ∷ xs) [] h = cc
same_codes-eq (x ∷ xs) (y ∷ ys) h = ground (arith, same_codes-eq xs ys)

-- If a chain of two operations succeeds, both do.
pub both_ok {ℓ κ} :
    {X : Type ℓ} {Y : Type κ} {y : Y} (first : Outcome X) (second : X → Outcome Y)
    → (first >>= second) ≡ ok y
    → (x : X) × (first ≡ ok x) × (second x ≡ ok y)
both_ok (err e) second done = cc
both_ok (ok x) second done = (x, refl, done)

pub or_err-eq-ok {ℓ} :
    {A : Type ℓ} (o : Option A) (e : UpdateError) {a : A} → or_err o e ≡ ok a → o ≡ some a
or_err-eq-ok none e h = cc
or_err-eq-ok (some x) e h = cc

pub guard-eq-ok : (b : Bool) (e : UpdateError) {u : Unit {0}} → guard b e ≡ ok u → b ≡ true
guard-eq-ok true e h = refl
guard-eq-ok false e h = cc

-- A payload that `DownloadBinary` returns is a member of the archive at the URL, and the SHA-256 of
-- that archive is the one that the digest file states.
abbrev pub IsChecked : Sources → String → String → List ℕ → Type 0
IsChecked w zip_url dgst_url payload =
    (dgst : List ℕ) × (archive : List ℕ) × (members : List Member) × (w.get dgst_url ≡ some dgst)
    × (w.get zip_url ≡ some archive)
    × (parse_sha256 dgst ≡ some (w.sha256_hex archive))
    × (w.read_zip archive ≡ some members)
    × (find_member w members ≡ ok payload)

pub download_binary-IsChecked :
    (w : Sources) (zip_url dgst_url : String) (payload : List ℕ)
    → download_binary w zip_url dgst_url ≡ ok payload
    → IsChecked w zip_url dgst_url payload
unfolding download_binary
download_binary-IsChecked w zip_url dgst_url payload h =
    let (dgst, d, h1) = both_ok (or_err (w.get dgst_url) fetch_failed) _ h in
    let (want, p, h2) = both_ok (or_err (parse_sha256 dgst) digest_unreadable) _ h1 in
    let (archive, z, h3) = both_ok (or_err (w.get zip_url) fetch_failed) _ h2 in
    let (u, g, h4) =
      both_ok (guard (same_codes (w.sha256_hex archive) want) digest_mismatch) _ h3 in
    let (members, r, h5) = both_ok (or_err (w.read_zip archive) bad_archive) _ h4 in
    let same =
      same_codes-eq (w.sha256_hex archive) want
        (guard-eq-ok (same_codes (w.sha256_hex archive) want) digest_mismatch g) in
    let parsed = or_err-eq-ok (parse_sha256 dgst) digest_unreadable p in
    (
      dgst,
      archive,
      members,
      or_err-eq-ok (w.get dgst_url) fetch_failed d,
      or_err-eq-ok (w.get zip_url) fetch_failed z,
      rw same parsed,
      or_err-eq-ok (w.read_zip archive) bad_archive r,
      h5,
    )

-- A release has an asset of a name at a URL.
abbrev pub Offers : String → String → List Asset → Type 0
Offers name url [] = ⊥
Offers name url (a ∷ assets) = ((a.name ≡ name) × (a.url ≡ url)) ⊎ Offers name url assets

abbrev AreAmong : String → List Asset → String × String → String × String → Type 0
AreAmong asset assets (z, d) (zip_url, dgst_url) =
    ((zip_url ≡ z) ⊎ Offers asset zip_url assets)
    × ((dgst_url ≡ d) ⊎ Offers (asset ++ ".dgst") dgst_url assets)

later :
    {A : Type 0} (a : Asset) (assets : List Asset) (name url : String)
    → A ⊎ Offers name url assets
    → A ⊎ Offers name url (a ∷ assets)
later a assets name url (inl e) = inl e
later a assets name url (inr o) = inr (inr o)

one_found :
    {z : String} (a : Asset) (assets : List Asset) (name url : String)
    → a.name ≡ name
    → (url ≡ a.url) ⊎ Offers name url assets
    → (url ≡ z) ⊎ Offers name url (a ∷ assets)
one_found a assets name url same (inl e) = inr (inl (same, sym e))
one_found a assets name url same (inr o) = inr (inr o)

moved :
    (a : Asset) (assets : List Asset) (asset z d : String) (next_urls : String × String)
    → (if a.name == asset
        then (a.url, d)
        else if a.name == asset ++ ".dgst"
        then (z, a.url)
        else (z, d))
      ≡ next_urls
    → AreAmong asset (a ∷ assets) (z, d) (find_urls asset assets next_urls)
    → AreAmong asset (a ∷ assets) (z, d) (find_urls asset (a ∷ assets) (z, d))
unfolding find_urls
moved a assets asset z d next_urls e h =
    subst (AreAmong asset (a ∷ assets) (z, d)) (ap (find_urls asset assets) (sym e)) h

find_urls-AreAmong :
    (asset : String) (assets : List Asset) (urls : String × String)
    → AreAmong asset assets urls (find_urls asset assets urls)
unfolding find_urls
find_urls-AreAmong asset [] (z, d) = (inl refl, inl refl)
find_urls-AreAmong asset (a ∷ assets) (z, d) = elim (Bool-cases (a.name == asset)) [
  | inl zip ↦
      let name : a.name ≡ asset = (string_eq.beq_iff a.name asset).0 zip in
      let urls = find_urls asset assets (a.url, d) in
      let (zs, ds) = find_urls-AreAmong asset assets (a.url, d) in
      moved a assets asset z d (a.url, d) (rw zip refl)
        (one_found a assets asset urls.0 name zs, later a assets (asset ++ ".dgst") urls.1 ds)
  | inr other ↦ elim (Bool-cases (a.name == asset ++ ".dgst")) [
    | inl dgst ↦
        let name : a.name ≡ asset ++ ".dgst" =
          (string_eq.beq_iff a.name (asset ++ ".dgst")).0 dgst in
        let urls = find_urls asset assets (z, a.url) in
        let (zs, ds) = find_urls-AreAmong asset assets (z, a.url) in
        moved a assets asset z d (z, a.url) (rw (other, dgst) refl)
          (later a assets asset urls.0 zs, one_found a assets (asset ++ ".dgst") urls.1 name ds)
    | inr neither ↦
        let urls = find_urls asset assets (z, d) in
        let (zs, ds) = find_urls-AreAmong asset assets (z, d) in
        moved a assets asset z d (z, d) (rw (other, neither) refl)
          (later a assets asset urls.0 zs, later a assets (asset ++ ".dgst") urls.1 ds)
  ]
]

-- The URLs of an asset and of its digest are those that the release gives them.
pub asset_urls-Offers :
    (r : Release) (asset zip_url dgst_url : String)
    → asset_urls r asset ≡ ok (zip_url, dgst_url)
    → Offers asset zip_url r.assets × Offers (asset ++ ".dgst") dgst_url r.assets
unfolding asset_urls
asset_urls-Offers r asset zip_url dgst_url h =
    let urls = find_urls asset r.assets ("", "") in
    let (zs, ds) = find_urls-AreAmong asset r.assets ("", "") in
    elim (Bool-cases (urls.0 == "")) [
      | inl bad ↦ cc (rw bad at h)
      | inr good ↦ elim (Bool-cases (urls.1 == "")) [
        | inl bad ↦ cc (rw (good, bad) at h)
        | inr fine ↦
            let same : urls ≡ (zip_url, dgst_url) = cc (rw (good, fine) at h) in
            (
              given asset r.assets urls.0 zip_url (ap (λ (p : String × String). p.0) same) good zs,
              given (asset ++ ".dgst") r.assets urls.1 dgst_url
                  (ap (λ (p : String × String). p.1) same) fine ds,
            )
      ]
    ]
  where
    given :
        (name : String) (assets : List Asset) (url url' : String)
        → url ≡ url'
        → (url == "") ≡ false
        → (url ≡ "") ⊎ Offers name url assets
        → Offers name url' assets
    given name assets url url' e some_ (inl blank) =
        let clash : true ≡ false = sym ((string_eq.beq_iff url "").1 blank) ∙ some_ in cc clash
    given name assets url url' e some_ (inr o) = subst (λ u. Offers name u assets) e o

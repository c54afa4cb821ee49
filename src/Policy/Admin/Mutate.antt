-- ===== src/Policy/Admin/Mutate.antt =====
-- A mutation under the admin passphrase (mutate and sealAndWriteWith of internal/policy/admin.go).
use daxib.Prelude.{ℕ, ◌≡◌, ◌≢◌, true, Option, some, List, Text, arith, inl, inr, Option-cases}
use daxib.Prelude.Outcome
use daxib.Prelude.Outcome.{Outcome-cases, ◌>>=◌, or_fail, require}
use daxib.Policy.Body.{Policy}
use daxib.Policy.Seal.{Codec, Anchor}
use daxib.Policy.Seal.Keys.{Crypto}
use daxib.Policy.Engine.{Engine, Error, ok, err, bytes, load_active}
use daxib.Policy.Engine.Cases.{Result-cases}
use daxib.Policy.Admin.{
  unsynced, Io, authenticate, sealed_file, seal_and_write, adopt, mutated, raised, mutate, reset,
}

module _ (k : Codec) (c : Crypto) (json_string : Text → Text) where
  -- A mutation that succeeds: what it authenticated, loaded and wrote.
  pub record Done (io : Io) (pass : Text) (body : Policy → Policy) (e e' : Engine) (a : Anchor)
      : Type 0 where
    pub sk : Text
    pub p : Policy
    pub authenticated : authenticate k c json_string e.anchor pass ≡ ok sk
    pub loaded : load_active k e ≡ Outcome.ok (some p)
    pub found : e'.anchor_found ≡ true
    pub anchor : e'.anchor ≡ a
    pub returned : a ≡ raised e.anchor (body p).nonce
    pub file : e'.policy_file ≡ bytes (sealed_file k c json_string sk (body p))

  pub mutate-Done :
      (io : Io) (pass : Text) (refresh_self : Option (List Text)) (written_by : Text)
      (fn : Policy → Policy) (e : Engine) (a : Anchor)
      → (mutate k c json_string io pass refresh_self written_by fn e).1 ≡ ok a
      → Done io pass
          (mutated e.anchor refresh_self written_by io.now fn)
          e
          (mutate k c json_string io pass refresh_self written_by fn e).0
          a
  unfolding mutate seal_and_write adopt
  mutate-Done io pass refresh_self written_by fn e a h =
      elim (Result-cases (authenticate k c json_string e.anchor pass)) [
        | inr (x, q) ↦ absurd (ground arith)
        | inl (sk, q) ↦ elim (Outcome-cases (load_active k e)) [
          | inl (x, l) ↦ absurd (ground arith)
          | inr (m, l) ↦ elim (Option-cases m) [
            | inl n ↦ absurd (ground arith)
            | inr (p, n) ↦ record {
              sk = sk;
              p = p;
              authenticated = q;
              loaded = ground arith;
              found = ground arith;
              anchor = ground arith;
              returned = ground arith;
              file = ground arith;
            }
          ]
        ]
      ]

  abbrev marked : Anchor → ℕ → Anchor
  marked a n = record a { nonce_watermark = n }

  -- The engine still holds the same anchor and the same policy file.
  abbrev Untouched : Engine → Engine → Type 0
  Untouched e e' =
      (e'.anchor ≡ e.anchor) × (e'.anchor_found ≡ e.anchor_found) × (e'.policy_file ≡ e.policy_file)

  -- A passphrase that does not authenticate changes nothing and gives its error; and whatever else fails
  -- in a mutation or a reset, the anchor and the file stay, save that the file may be the new one where
  -- only the sync of its directory failed.
  pub admin_failure :
      (io : Io) (pass : Text) (refresh_self : Option (List Text)) (self : List Text)
      (written_by : Text) (fn : Policy → Policy) (e : Engine)
      → e.anchor_found ≡ true
      → let m = mutate k c json_string io pass refresh_self written_by fn e in
        let r = reset k c json_string io pass self written_by e in
        ((x : Error)
          → authenticate k c json_string e.anchor pass ≡ err x
          → (m ≡ (e, err x)) × (r ≡ (e, err x)))
        × ((x : Error) → m.1 ≡ err x → io.write ≢ unsynced → Untouched e m.0)
        × ((x : Error) → r.1 ≡ err x → io.write ≢ unsynced → Untouched e r.0)
  unfolding mutate reset seal_and_write adopt
  admin_failure io pass refresh_self self written_by fn e f = (
    λ x h. (ground arith, ground arith),
    λ x h n. (ground arith, ground arith, ground arith),
    λ x h n. (ground arith, ground arith, ground arith),
  )

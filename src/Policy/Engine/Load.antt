-- ===== src/Policy/Engine/Load.antt =====
-- What loading the policy accepts (loadActive): the fail-closed asymmetry of anchor and file.
use daxib.Prelude.{◌≤◌, ◌≡◌, ◌↔◌, refl, Bool, true, false, none, some, Text, arith}
use daxib.Policy.Body.{Policy}
use daxib.Policy.Engine.{Engine, PolicyFile, missing, unreadable, bytes, load_active, load_sealed}
use daxib.Prelude.Outcome.{◌>>=◌, bind-split, or_fail, require}
use daxib.Prelude.Outcome
use daxib.Policy.Seal.{
  Codec, Anchor, Envelope, verify_under_anchor, decode_envelope, decode_body_strict,
}

-- A file that carries a policy under the pinned anchor: it decodes, its seal verifies over the exact
-- stored body, and the body's nonce is not below the watermark.
pub record Sealed (k : Codec) (a : Anchor) (raw : Text) (p : Policy) : Type 0 where
  pub envelope : Envelope
  pub body : Text
  pub sig : Text
  pub decodes : decode_envelope k raw ≡ Outcome.ok (envelope, body)
  pub signature : k.base64 envelope.sig ≡ some sig
  pub verified : verify_under_anchor k body sig a ≡ true
  pub strict : decode_body_strict k body ≡ Outcome.ok p
  pub fresh : a.nonce_watermark ≤ p.nonce

load_sealed_sound :
    (k : Codec) (a : Anchor) (raw : Text) (p : Policy)
    → load_sealed k a raw ≡ Outcome.ok p
    → Sealed k a raw p
unfolding load_sealed
load_sealed_sound k a raw p h =
    let (opened, e0, h0) = bind-split (decode_envelope k raw) _ h in
    let (sig, e1, h1) = bind-split (or_fail (k.base64 opened.0.sig) _) _ h0 in
    let (u, e2, h2) = bind-split (require (verify_under_anchor k opened.1 sig a) _) _ h1 in
    let (q, e3, h3) = bind-split (decode_body_strict k opened.1) _ h2 in
    record {
      envelope = opened.0;
      body = opened.1;
      sig = sig;
      decodes = e0;
      signature = ground arith;
      verified = ground arith;
      strict = ground arith;
      fresh = ground arith;
    }

load_active-Sealed :
    (k : Codec) (e : Engine) (p : Policy)
    → load_active k e ≡ Outcome.ok (some p)
    → (e.anchor_found ≡ true)
      × ((raw : Text) × (e.policy_file ≡ bytes raw) × (load_sealed k e.anchor raw ≡ Outcome.ok p))
unfolding load_active
load_active-Sealed k e p h = load_file e.policy_file e.anchor_found refl refl
  where
    load_file :
        (f : PolicyFile) (b : Bool)
        → e.policy_file ≡ f
        → e.anchor_found ≡ b
        → (e.anchor_found ≡ true)
          × ((raw : Text) × (e.policy_file ≡ bytes raw)
              × (load_sealed k e.anchor raw ≡ Outcome.ok p))
    load_file missing b q r = absurd (ground arith)
    load_file unreadable b q r = absurd (ground arith)
    load_file (bytes raw) true q r = (r, (raw, q, ground arith))
    load_file (bytes raw) false q r = absurd (ground arith)

-- Loading is permissive exactly where no anchor is pinned and no policy file is there, and it gives a
-- policy only where an anchor is pinned and the file carries that policy, sealed under the anchor and
-- not below its watermark.
pub load_active_fail_closed :
    (k : Codec) (e : Engine)
    → ((load_active k e ≡ Outcome.ok none) ↔ ((e.anchor_found ≡ false) × (e.policy_file ≡ missing)))
      × ((p : Policy)
          → load_active k e ≡ Outcome.ok (some p)
          → (e.anchor_found ≡ true)
            × ((raw : Text) × (e.policy_file ≡ bytes raw) × Sealed k e.anchor raw p))
unfolding load_active
load_active_fail_closed k e = (
  (λ h. (ground arith, ground arith), λ h. ground arith),
  λ p h.
      let (found, (raw, q, s)) = load_active-Sealed k e p h in
      (found, (raw, q, load_sealed_sound k e.anchor raw p s)),
)

module _ {k : Codec} {raw : Text} {p : Policy} where
  pub load_sealed_complete : {a : Anchor} → Sealed k a raw p → load_sealed k a raw ≡ Outcome.ok p
  unfolding load_sealed
  load_sealed_complete s =
      let e0 = s.decodes in
      let e1 = s.signature in
      let e2 = s.verified in let e3 = s.strict in let e4 = s.fresh in ground arith

  pub load_active_complete :
      (e : Engine)
      → e.anchor_found ≡ true
      → e.policy_file ≡ bytes raw
      → Sealed k e.anchor raw p
      → load_active k e ≡ Outcome.ok (some p)
  unfolding load_active
  load_active_complete e f b s = let l = load_sealed_complete s in ground arith

  -- The same file under another anchor.
  pub under :
      {a : Anchor} (b : Anchor) (s : Sealed k a raw p)
      → verify_under_anchor k s.body s.sig b ≡ true
      → b.nonce_watermark ≤ p.nonce
      → Sealed k b raw p
  under b s v f = record {
    envelope = s.envelope;
    body = s.body;
    sig = s.sig;
    decodes = s.decodes;
    signature = s.signature;
    verified = v;
    strict = s.strict;
    fresh = f;
  }

-- ===== src/Encoding/Writer/Injective.antt =====
-- About `SigningWriter` of crates/aion-trust-core/src/encoding.rs: fields and the bytes they make.
use aion_trust.Prelude.{
  ◌%◌, ◌^◌, ◌<◌, ◌≡◌, refl, sym, ap₂, ◌∙◌, List, [], ◌∷◌, ◌++◌, append-nil, append_assoc, arith,
  length, All, Bytes,
}
use aion_trust.Encoding.Words.{be_bytes, length-be_bytes, be_bytes_4-injective}
use aion_trust.Encoding.Writer.{SigningWriter, ◌▸◌, new, field, into_bytes}

-- A field's bytes: its length, then its content.
pub frame : Bytes → Bytes
frame bytes = be_bytes 4 (length bytes % 2 ^ 32) ++ bytes

-- A message of fields, written one after another.
abbrev pub frames : List Bytes → Bytes
frames [] = []
frames (f ∷ fs) = frame f ++ frames fs

-- Write the fields in order.
abbrev pub write_all : List Bytes → SigningWriter → SigningWriter
write_all [] w = w
write_all (f ∷ fs) w = write_all fs (w ▸ field f)

-- A field short enough for its length prefix.
abbrev pub Fits : Bytes → Type 0
Fits bytes = length bytes < 2 ^ 32

pub buf-field : (f : Bytes) (w : SigningWriter) → (field f w).buf ≡ w.buf ++ frame f
unfolding field frame
buf-field f w = refl

pub buf-write_all :
    (fs : List Bytes) (w : SigningWriter) → (write_all fs w).buf ≡ w.buf ++ frames fs
buf-write_all [] w = sym (append-nil w.buf)
buf-write_all (f ∷ fs) w = simp (buf-write_all fs (field f w), buf-field, append_assoc)

frame_ne_nil : (f xs : Bytes) → frame f ++ xs ≡ [] → ⊥
unfolding frame
frame_ne_nil f xs e = cc

-- Two splits of one list at the same length agree.
pub append_split {ℓ} :
    {A : Type ℓ} (us vs xs ys : List A)
    → length us ≡ length vs
    → us ++ xs ≡ vs ++ ys
    → (us ≡ vs) × (xs ≡ ys)
append_split [] [] xs ys n e = (refl, e)
append_split [] (v ∷ vs) xs ys n e = absurd (omega arith)
append_split (u ∷ us) [] xs ys n e = absurd (omega arith)
append_split (u ∷ us) (v ∷ vs) xs ys n e =
    let (p, q) = append_split us vs xs ys (omega arith) (cc) in (cc, q)

pub frame_split :
    (f g xs ys : Bytes) → Fits f → Fits g → frame f ++ xs ≡ frame g ++ ys → (f ≡ g) × (xs ≡ ys)
unfolding frame
frame_split f g xs ys hf hg e =
    let lf = length f % 2 ^ 32 in
    let lg = length g % 2 ^ 32 in
    let regroup = sym (append_assoc (be_bytes 4 lf) f xs) ∙ e ∙ append_assoc (be_bytes 4 lg) g ys in
    let heads =
      append_split (be_bytes 4 lf) (be_bytes 4 lg) (f ++ xs) (g ++ ys)
        (length-be_bytes 4 lf ∙ sym (length-be_bytes 4 lg)) regroup in
    append_split f g xs ys (len_eq heads.0) heads.1
  where
    len_eq : be_bytes 4 (length f % 2 ^ 32) ≡ be_bytes 4 (length g % 2 ^ 32) → length f ≡ length g
    len_eq e = omega (
      arith,
      be_bytes_4-injective (length f % 2 ^ 32) (length g % 2 ^ 32) (omega arith) (omega arith) e,
    )

-- Two messages of fields with the same bytes, nothing left over, are the same message.
pub frames-injective :
    (fs gs : List Bytes) → All Fits fs → All Fits gs → frames fs ≡ frames gs → fs ≡ gs
frames-injective [] [] hf hg e = refl
frames-injective [] (g ∷ gs) hf hg e = absurd (frame_ne_nil g (frames gs) (sym e))
frames-injective (f ∷ fs) [] hf hg e = absurd (frame_ne_nil f (frames fs) e)
frames-injective (f ∷ fs) (g ∷ gs) (hf, hfs) (hg, hgs) e =
    let (p, q) = frame_split f g (frames fs) (frames gs) hf hg e in
    ap₂ ◌∷◌ p (frames-injective fs gs hfs hgs q)

pub buf-new : (domain : Bytes) → (new domain).buf ≡ frame domain
unfolding new frame
buf-new domain = refl

-- The bytes of a whole message: the domain tag's frame, then a frame for each field.
pub message_bytes :
    (domain : Bytes) (fs : List Bytes)
    → into_bytes (write_all fs (new domain)) ≡ frames (domain ∷ fs)
unfolding into_bytes
message_bytes domain fs = simp (buf-write_all fs (new domain), buf-new)

-- Writing fields under a domain tag is unambiguous: from the same bytes it follows that the
-- domain tags are the same and that the fields are, in number, order and content. The tags and
-- the fields are shorter than 2^32 bytes.
pub into_bytes-injective :
    (domain domain' : Bytes) (fs gs : List Bytes)
    → All Fits (domain ∷ fs)
    → All Fits (domain' ∷ gs)
    → into_bytes (write_all fs (new domain)) ≡ into_bytes (write_all gs (new domain'))
    → (domain ≡ domain') × (fs ≡ gs)
into_bytes-injective domain domain' fs gs hf hg e =
    let whole = sym (message_bytes domain fs) ∙ e ∙ message_bytes domain' gs in
    let (p, q) = frame_split domain domain' (frames fs) (frames gs) hf.0 hg.0 whole in
    (p, frames-injective fs gs hf.1 hg.1 q)

-- ===== src/Cas/S3Store/Keys.antt =====
-- The keys of the objects in the bucket: those of valid digests are apart, whatever the prefix is.
use aws_build_farm.Prelude.{
  Bool-cases, length, Bytes, codes, bytes_eq, bytes_eq_iff, bytes_eq_refl, ◌<◌, ◌≡◌, refl, sym, ap,
  ◌∙◌, ◌≢◌, inl, inr, false, none, some, [], ◌∷◌, ◌++◌, arith,
}
use mathlib.Core.List.{append_cancel_left}
use aws_build_farm.GoText.Path.{path_join, dot_dot}
use aws_build_farm.GoText.Path.Plain.{IsPlain, base, path_join-plain}
use aws_build_farm.Digest.{Digest, DigestRef, validate, get_hash}
use aws_build_farm.Digest.Laws.{validate_iff, valid-HasNoSlash}

no_short : (h s : Bytes) → length s < length h → bytes_eq h s ≡ false
no_short h s less = elim (Bool-cases (bytes_eq h s)) [
  | inl same ↦ absurd (omega (arith, ap length ((bytes_eq_iff h s).0 same)))
  | inr differ ↦ differ
]

-- The hash of a valid digest is an ordinary name.
pub valid-IsPlain : (d : Digest) → validate (some d) ≡ none → IsPlain d.hash
valid-IsPlain d v =
    let (e, same, sha) = (validate_iff (some d)).0 v in
    let l : length d.hash ≡ 64 =
      ap (λ (x : DigestRef). length (get_hash x)) same ∙ sha.hash_length in
    record {
      no_slash = valid-HasNoSlash d v;
      not_empty = no_short d.hash [] (omega arith);
      not_dot = no_short d.hash (b'.' ∷ []) (omega arith);
      not_dot_dot = no_short d.hash dot_dot (omega arith);
    }

pub cas-IsPlain : IsPlain (codes "cas")
unfolding bytes_eq
cas-IsPlain = record {
  no_slash = omega arith;
  not_empty = refl;
  not_dot = refl;
  not_dot_dot = refl;
}

pub ac-IsPlain : IsPlain (codes "ac")
unfolding bytes_eq
ac-IsPlain = record { no_slash = omega arith; not_empty = refl; not_dot = refl; not_dot_dot = refl }

module _ (prefix : Bytes) (h k : Bytes) (ph : IsPlain h) (pk : IsPlain k) where
  path_join-injective :
      (dir : Bytes)
      → IsPlain dir
      → path_join (prefix ∷ dir ∷ h ∷ []) ≡ path_join (prefix ∷ dir ∷ k ∷ [])
      → h ≡ k
  path_join-injective dir pd e =
      let e' : base prefix ++ (dir ++ b'/' ∷ h) ≡ base prefix ++ (dir ++ b'/' ∷ k) =
        sym (path_join-plain dir h pd ph prefix) ∙ e ∙ path_join-plain dir k pd pk prefix in
      let e'' =
        append_cancel_left dir (b'/' ∷ h) (b'/' ∷ k) (append_cancel_left (base prefix) _ _ e') in
      cc e''

  -- No blob has the key of the result of an action.
  pub keys_apart :
      path_join (prefix ∷ codes "cas" ∷ h ∷ []) ≢ path_join (prefix ∷ codes "ac" ∷ k ∷ [])
  keys_apart e =
      let e' : base prefix ++ (codes "cas" ++ b'/' ∷ h) ≡ base prefix ++ (codes "ac" ++ b'/' ∷ k) =
        sym (path_join-plain (codes "cas") h cas-IsPlain ph prefix)
        ∙ e
        ∙ path_join-plain (codes "ac") k ac-IsPlain pk prefix in
      let e'' = append_cancel_left (base prefix) _ _ e' in cc e''

  key_eq :
      (dir : Bytes)
      → IsPlain dir
      → bytes_eq (path_join (prefix ∷ dir ∷ h ∷ [])) (path_join (prefix ∷ dir ∷ k ∷ []))
        ≡ bytes_eq h k
  key_eq dir pd = elim (Bool-cases (bytes_eq h k)) [
    | inl same ↦ rw (same, (bytes_eq_iff h k).0 same) (bytes_eq_refl _)
    | inr differ ↦ ground (
      arith,
      differ,
      path_join-injective dir pd,
      bytes_eq_iff h k,
      bytes_eq_iff (path_join (prefix ∷ dir ∷ h ∷ [])) (path_join (prefix ∷ dir ∷ k ∷ [])),
    )
  ]

  pub blob_key_eq :
      bytes_eq
        (path_join (prefix ∷ codes "cas" ∷ h ∷ []))
        (path_join (prefix ∷ codes "cas" ∷ k ∷ []))
      ≡ bytes_eq h k
  blob_key_eq = key_eq (codes "cas") cas-IsPlain

  pub ac_key_eq :
      bytes_eq (path_join (prefix ∷ codes "ac" ∷ h ∷ [])) (path_join (prefix ∷ codes "ac" ∷ k ∷ []))
      ≡ bytes_eq h k
  ac_key_eq = key_eq (codes "ac") ac-IsPlain

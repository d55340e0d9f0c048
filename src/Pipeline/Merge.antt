-- ===== src/Pipeline/Merge.antt =====
-- A merge patch of a pipeline's status, field by field: what `client.MergeFrom` sends and the API server
-- makes of it, for `PatchStatus` of internal/utils/k8s/k8s.go.
use vector_operator.Prelude.{
  ◌≡◌, refl, sym, ap, ◌∙◌, Bool, true, false, not, Option, none, some, arith, nat_beq, inl, inr,
  Bool-cases, if◌then◌else◌,
}
use vector_operator.Prelude.Int.{ℤ, pos, negsuc}
use vector_operator.Text.{Text, text_beq, text_beq_iff}
use vector_operator.Api.{Pipeline, Status, Role, agent, aggregator, unknown}

abbrev pub int_beq : ℤ → ℤ → Bool
int_beq (pos a) (pos b) = nat_beq a b
int_beq (negsuc a) (negsuc b) = nat_beq a b
int_beq _ _ = false

pub int_beq_refl : (n : ℤ) → int_beq n n ≡ true
int_beq_refl (pos n) = ground arith
int_beq_refl (negsuc n) = ground arith

-- a test of two optional fields
abbrev option_beq {ℓ} : {A : Type ℓ} → (A → A → Bool) → Option A → Option A → Bool
option_beq beq none none = true
option_beq beq (some a) (some b) = beq a b
option_beq beq _ _ = false

abbrev bool_beq : Bool → Bool → Bool
bool_beq true b = b
bool_beq false b = not b

abbrev pub role_beq : Role → Role → Bool
role_beq agent agent = true
role_beq aggregator aggregator = true
role_beq unknown unknown = true
role_beq _ _ = false

-- One field after a merge patch: the patch has the field of the object where it differs from the base,
-- and clears it where the object has none.
unfoldable pub merge_field {ℓ} :
    {A : Type ℓ} → (A → A → Bool) → Option A → Option A → Option A → Option A
merge_field beq there a base = if option_beq beq a base then there else a

unfoldable pub merge_status : Status → Status → Status → Status
unfolding merge_field
merge_status there s base = record {
  role = merge_field role_beq there.role s.role base.role;
  config_check_result =
      merge_field bool_beq there.config_check_result s.config_check_result base.config_check_result;
  reason = merge_field text_beq there.reason s.reason base.reason;
  last_applied_pipeline_hash =
      merge_field int_beq there.last_applied_pipeline_hash s.last_applied_pipeline_hash
        base.last_applied_pipeline_hash;
  related_secrets_hash =
      merge_field int_beq there.related_secrets_hash s.related_secrets_hash
        base.related_secrets_hash;
}

option_beq-eq :
    {A : Type 0} (beq : A → A → Bool)
    → ((a b : A) → beq a b ≡ true → a ≡ b)
    → (x y : Option A) → option_beq beq x y ≡ true
    → x ≡ y
option_beq-eq beq f none none e = refl
option_beq-eq beq f (some a) (some b) e = ap some (f a b e)
option_beq-eq beq f none (some b) e = cc e
option_beq-eq beq f (some a) none e = cc e

-- a field of the server that is as in the base becomes that of the object
merge_field-same :
    {A : Type 0} (beq : A → A → Bool)
    → ((a b : A) → beq a b ≡ true → a ≡ b)
    → (there a base : Option A) → there ≡ base
    → merge_field beq there a base ≡ a
unfolding merge_field
merge_field-same beq f there a base same = elim (Bool-cases (option_beq beq a base)) [
  | inl y ↦ rw y (same ∙ sym (option_beq-eq beq f a base y))
  | inr n ↦ rw n refl
]

bool_beq-eq : (a b : Bool) → bool_beq a b ≡ true → a ≡ b
bool_beq-eq true b e = sym e
bool_beq-eq false b e = ground arith

role_beq-eq : (a b : Role) → role_beq a b ≡ true → a ≡ b
role_beq-eq a b e = ground arith

int_beq-eq : (a b : ℤ) → int_beq a b ≡ true → a ≡ b
int_beq-eq (pos a) (pos b) e = ap pos (ground arith)
int_beq-eq (negsuc a) (negsuc b) e = ap negsuc (ground arith)
int_beq-eq (pos a) (negsuc b) e = cc e
int_beq-eq (negsuc a) (pos b) e = cc e

pub merge_field-cleared :
    (there reason : Option Text) (base : Text)
    → reason ≡ none
    → merge_field text_beq there reason (some base) ≡ reason
unfolding merge_field
merge_field-cleared there reason base e = rw e refl

-- the reason that the server has, of a pipeline that was read with this one
abbrev reason_of : Option Text → Option Text → Option Text
reason_of there base = elim base [ none ↦ there | some r ↦ some r ]

pub merge_field-blamed :
    (there : Option Text) (written : Text) (reason base : Option Text)
    → reason ≡ some written
    → merge_field text_beq (reason_of there base) reason base ≡ reason
unfolding merge_field
merge_field-blamed there written reason none e = rw e refl
merge_field-blamed there written reason (some r) e =
    merge_field-same text_beq (λ a b. (text_beq_iff a b).0) (some r) reason (some r) refl

status_eq :
    (s t : Status)
    → s.role ≡ t.role
    → s.config_check_result ≡ t.config_check_result
    → s.reason ≡ t.reason
    → s.last_applied_pipeline_hash ≡ t.last_applied_pipeline_hash
    → s.related_secrets_hash ≡ t.related_secrets_hash
    → s ≡ t
status_eq s t a b c d e = cc (a, b, c, d, e)

-- A patch gives the server the status of the object, if the server's differs from the base at most in
-- the reason, and the reason is written.
pub merge_status-same :
    (there s base : Status)
    → there.role ≡ base.role
    → there.config_check_result ≡ base.config_check_result
    → there.last_applied_pipeline_hash ≡ base.last_applied_pipeline_hash
    → there.related_secrets_hash ≡ base.related_secrets_hash
    → merge_field text_beq there.reason s.reason base.reason ≡ s.reason
    → merge_status there s base ≡ s
unfolding merge_status
merge_status-same there s base a b c d e =
    status_eq (merge_status there s base) s
      (merge_field-same role_beq role_beq-eq there.role s.role base.role a)
      (merge_field-same bool_beq bool_beq-eq there.config_check_result s.config_check_result
        base.config_check_result b)
      e
      (merge_field-same int_beq int_beq-eq there.last_applied_pipeline_hash
        s.last_applied_pipeline_hash base.last_applied_pipeline_hash c)
      (merge_field-same int_beq int_beq-eq there.related_secrets_hash s.related_secrets_hash
        base.related_secrets_hash d)

-- the status on the server, of a pipeline as it was read
unfoldable pub status_there : (Pipeline → Option Text) → Pipeline → Status
status_there reason_there base = record base.status {
  reason = elim base.status.reason [ none ↦ reason_there base | some r ↦ some r ];
}

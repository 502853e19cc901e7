-- ===== src/Providers/Roles.antt =====
-- pkg/provider/aws/config.go: the credentials of an instance.
--
-- The metadata service, IAM and STS are parameters, by what they answer.
use e2d.Prelude.{
  ◌≡◌, refl, Bool, false, Option, none, some, List, [], ◌∷◌, drop, length, if◌then◌else◌,
  has_prefix, Text, codes, Error, other, Result, ok, err, panic, ◌>>=◌,
}

-- What the session is given to work with.
pub data Credentials : Type 0 where
  default instance_role : Credentials
  assumed : Text → Text → Credentials

-- aws.Config
pub record AwsConfig : Type 0 where
  pub region : Text
  pub credentials : Credentials

pub record Metadata : Type 0 where
  -- session.NewSession
  pub session : Option Error
  -- the region in the identity document
  pub region : Result Text
  -- the ARN of the instance profile, which is empty where none is attached
  pub iam_info : Result Text
  -- arn.Parse, and the resource that it finds
  pub parse_arn : Text → Result Text
  -- the ARNs of the roles of an instance profile, `none` for a profile that is nil
  pub instance_profile : Text → Result (Option (List Text))
  -- the error of assuming a role under a session name, and whether its text has "Access Denied"
  pub assume_role : Text → Text → Option Error
  pub is_denied : Error → Bool

-- strings.Replace(s, old, "", 1), for a text `old` that is not empty
unfoldable pub without_first : Text → Text → Text
without_first old [] = []
without_first old (c ∷ s) =
    let rest = without_first old s in
    if has_prefix old (c ∷ s) then drop (length old) (c ∷ s) else (c ∷ rest)

after_session : {A : Type 0} → Option Error → Result A → Result A
after_session (some e) r = err e
after_session none r = r

module _ (m : Metadata) where
  -- `NewConfig`
  unfoldable pub new_config : Result AwsConfig
  unfolding after_session
  new_config =
      after_session m.session
        (do region ← m.region; ok (record { region = region; credentials = default }))

  -- The only role of a profile; the length is asked for before the pointer is looked at.
  role_of : Option (List Text) → Result Text
  role_of none = panic
  role_of (some []) = err (other (codes "cannot find instance profile"))
  role_of (some (role ∷ [])) = ok role
  role_of (some (role ∷ more ∷ roles)) =
      err (other (codes "only 1 Role-InstanceProfile association is supported"))

  role_of_profile : Text → Result Text
  unfolding role_of
  role_of_profile arn = do
    resource ← m.parse_arn arn
    profile ← m.instance_profile (without_first (codes "instance-profile/") resource)
    role_of profile

  -- The error that is wrapped where there is no profile is nil, and so is the one that is returned.
  role_by_info : Text → Result Text
  unfolding role_of_profile
  role_by_info [] = ok []
  role_by_info (c ∷ arn) = role_of_profile (c ∷ arn)

  -- `getRoleNameFromInstanceMetadata`
  unfoldable pub get_role_name : Result Text
  unfolding role_by_info
  get_role_name = do arn ← m.iam_info; role_by_info arn

  retrieved : AwsConfig → Text → Text → Option Error → Result AwsConfig
  retrieved cfg name arn none = ok (record cfg { credentials = assumed name arn })
  retrieved cfg name arn (some e) =
      if m.is_denied e then ok (record cfg { credentials = instance_role }) else err e

  -- `NewConfigWithRoleSession`
  unfoldable pub new_config_with_role_session : Text → Result AwsConfig
  unfolding after_session retrieved
  new_config_with_role_session name = do
    cfg ← new_config
    arn ← after_session m.session get_role_name
    retrieved cfg name arn (m.assume_role name arn)

  -- An instance without an instance profile has a role with an empty name, and no error: the error
  -- that is reported is the one of assuming that role.
  pub new_config_with_role_session-empty :
      (name region : Text) (e : Error)
      → m.session ≡ none
      → m.region ≡ ok region
      → m.iam_info ≡ ok []
      → m.assume_role name [] ≡ some e
      → m.is_denied e ≡ false
      → (get_role_name ≡ ok []) × (new_config_with_role_session name ≡ err e)
  unfolding new_config_with_role_session new_config get_role_name
  new_config_with_role_session-empty name region e session found info role other_error =
      (rw info refl, rw (session, found, info, role, other_error) refl)

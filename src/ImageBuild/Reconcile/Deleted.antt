-- ===== src/ImageBuild/Reconcile/Deleted.antt =====
-- The deletion of an ImageBuild: its image and its finalizer.
use cluster_agent.Prelude.{
  String, ◌≡◌, ◌≢◌, refl, ◌⊎◌, inl, inr, Bool, true, false, not, Option, some, none, List, [], ◌∷◌,
  ◌++◌, Result, ok, err, arith, at_or_empty, if◌then◌else◌, All, str_eq, eq_iff,
}
use cluster_agent.Api.ImageBuild.{ImageBuild}
use cluster_agent.ImageBuild.Calls.{
  BuildCalls, Secret, Write, writes_job, deletes_image, updates, updates_status,
  RegistryCredentialsRef,
}
use cluster_agent.ImageBuild.Reconcile.{
  PassEnded, has_finalizer, finalize, after_cleanup, credentials_of, cleanup_image, Cleanup,
  cleanup_from, delete_with, after_cluster_registry, registry_credentials, remove_finalizer,
}

-- The user name and the password that a registry's reference to a secret stands for.
pub data Provides (calls : BuildCalls)
    : Option RegistryCredentialsRef → String → String → Type 0 where
  anonymous : Provides calls none "" ""
  without_secret :
      (ref : RegistryCredentialsRef)
      → calls.get_secret ref.secret_name ref.secret_namespace ≡ ok none
      → Provides calls (some ref) "" ""
  from_secret :
      (ref : RegistryCredentialsRef) (secret : Secret)
      → calls.get_secret ref.secret_name ref.secret_namespace ≡ ok (some secret)
      → Provides calls
          (some ref)
          (at_or_empty secret.contents ref.username_key)
          (at_or_empty secret.contents ref.password_key)

abbrev Given : BuildCalls → Option RegistryCredentialsRef → Result (String × String) → Type 0
Given calls auth (err e) = Unit
Given calls auth (ok (username, password)) = Provides calls auth username password

from_answer :
    (calls : BuildCalls) (ref : RegistryCredentialsRef) (answer : Result (Option Secret))
    → calls.get_secret ref.secret_name ref.secret_namespace ≡ answer
    → Given calls (some ref) (credentials_of ref answer)
from_answer calls ref (err e) h = tt
from_answer calls ref (ok none) h = without_secret ref h
from_answer calls ref (ok (some secret)) h = from_secret ref secret h

registry_credentials-Given :
    (calls : BuildCalls) (auth : Option RegistryCredentialsRef)
    → Given calls auth (registry_credentials calls auth)
unfolding registry_credentials
registry_credentials-Given calls none = anonymous
registry_credentials-Given calls (some ref) =
    from_answer calls ref (calls.get_secret ref.secret_name ref.secret_namespace) refl

module _ (calls : BuildCalls) (b : ImageBuild) where
  -- A deletion of the image that the build pushed to a cluster registry.
  abbrev pub IsOwnDeletion : Write → Type 0
  IsOwnDeletion (deletes_image url) =
      (url ≡ b.status.image_url) × (b.spec.repository.cluster_registry_ref ≢ none)
  IsOwnDeletion (writes_job j) = ⊥
  IsOwnDeletion (updates w) = ⊥
  IsOwnDeletion (updates_status w) = ⊥

  -- The cluster registry of the build does not exist.
  pub record IsGone : Type 0 where
    pub name : String
    pub pushed_to : b.spec.repository.cluster_registry_ref ≡ some name
    pub missing : calls.get_registry_credentials name ≡ ok none

  -- The image of the build was deleted with the credentials of its cluster registry.
  pub record IsDeleted : Type 0 where
    pub name : String
    pub auth : Option RegistryCredentialsRef
    pub username : String
    pub password : String
    pub pushed_to : b.spec.repository.cluster_registry_ref ≡ some name
    pub registry : calls.get_registry_credentials name ≡ ok (some auth)
    pub provided : Provides calls auth username password
    pub deleted : calls.delete_image b.status.image_url username password ≡ none

  -- No image of the build is left that the controller has to delete.
  abbrev pub IsCleaned : Type 0
  IsCleaned =
      (b.spec.repository.cluster_registry_ref ≡ none)
      ⊎ (b.status.image_url ≡ "")
      ⊎ IsGone
      ⊎ IsDeleted

  pub record IsCleanup (x : Cleanup) : Type 0 where
    pub own : All IsOwnDeletion x.1
    pub cleaned : x.0 ≡ none → IsCleaned

  delete_with-IsCleanup :
      (name : String) (auth : Option RegistryCredentialsRef)
      (credentials : Result (String × String))
      → b.spec.repository.cluster_registry_ref ≡ some name
      → calls.get_registry_credentials name ≡ ok (some auth)
      → Given calls auth credentials
      → IsCleanup (delete_with calls b.status.image_url credentials)
  delete_with-IsCleanup name auth (err e) h found g = record {
    own = tt;
    cleaned = λ q. ground (arith, q);
  }
  delete_with-IsCleanup name auth (ok (username, password)) h found g = record {
    own = ((refl, λ q. ground (arith, q, h)), tt);
    cleaned = λ q. inr (
        inr (
          inr (record {
            name = name;
            auth = auth;
            username = username;
            password = password;
            pushed_to = h;
            registry = found;
            provided = g;
            deleted = q;
          })));
  }

  after_cluster_registry-IsCleanup :
      (name : String) (found : Result (Option (Option RegistryCredentialsRef)))
      → b.spec.repository.cluster_registry_ref ≡ some name
      → calls.get_registry_credentials name ≡ found
      → IsCleanup (after_cluster_registry calls b.status.image_url found)
  after_cluster_registry-IsCleanup name (err e) h found = record {
    own = tt;
    cleaned = λ q. ground (arith, q);
  }
  after_cluster_registry-IsCleanup name (ok none) h found = record {
    own = tt;
    cleaned = λ q. inr (inr (inl (record { name = name; pushed_to = h; missing = found })));
  }
  after_cluster_registry-IsCleanup name (ok (some auth)) h found =
      delete_with-IsCleanup name auth (registry_credentials calls auth) h found
        (registry_credentials-Given calls auth)

  if-IsCleanup :
      (t : Bool) (x y : Cleanup)
      → (t ≡ true → IsCleanup x)
      → (t ≡ false → IsCleanup y)
      → IsCleanup (if t then x else y)
  if-IsCleanup true x y h k = h refl
  if-IsCleanup false x y h k = k refl

  cleanup_from-IsCleanup :
      (ref : Option String)
      → b.spec.repository.cluster_registry_ref ≡ ref
      → IsCleanup (cleanup_from calls b ref)
  cleanup_from-IsCleanup none e = record { own = tt; cleaned = λ q. inl e }
  cleanup_from-IsCleanup (some name) e =
      if-IsCleanup (str_eq b.status.image_url "") _ _
        (λ f. record {
          own = tt;
          cleaned = λ q. inr (inl (ground (arith, f, eq_iff b.status.image_url "")));
        })
        (λ f. after_cluster_registry-IsCleanup name (calls.get_registry_credentials name) e refl)

  cleanup_image-IsCleanup : IsCleanup (cleanup_image calls b)
  unfolding cleanup_image
  cleanup_image-IsCleanup = cleanup_from-IsCleanup b.spec.repository.cluster_registry_ref refl

  -- A write of a pass over a build that is being deleted.
  abbrev pub IsFinalWrite : Write → Type 0
  IsFinalWrite (deletes_image url) =
      (url ≡ b.status.image_url) × (b.spec.repository.cluster_registry_ref ≢ none)
  IsFinalWrite (updates w) = (w ≡ remove_finalizer b) × IsCleaned
  IsFinalWrite (writes_job j) = ⊥
  IsFinalWrite (updates_status w) = ⊥

  final_of_own : (w : Write) → IsOwnDeletion w → IsFinalWrite w
  final_of_own (deletes_image url) h = h
  final_of_own (updates w) h = absurd h
  final_of_own (writes_job j) h = absurd h
  final_of_own (updates_status w) h = absurd h

  All-final_of_own : (ws : List Write) → All IsOwnDeletion ws → All IsFinalWrite ws
  All-final_of_own [] h = tt
  All-final_of_own (w ∷ ws) (p, h) = (final_of_own w p, All-final_of_own ws h)

  All-snoc :
      (ws : List Write) (w : Write)
      → All IsFinalWrite ws
      → IsFinalWrite w
      → All IsFinalWrite (ws ++ (w ∷ []))
  All-snoc [] w h q = (q, tt)
  All-snoc (v ∷ ws) w (p, h) q = (p, All-snoc ws w h q)

  after_cleanup-IsFinalWrite :
      (x : Cleanup) → IsCleanup x → All IsFinalWrite (after_cleanup calls b x).writes
  after_cleanup-IsFinalWrite (some e, ws) i = All-final_of_own ws i.own
  after_cleanup-IsFinalWrite (none, ws) i =
      All-snoc ws (updates (remove_finalizer b)) (All-final_of_own ws i.own) (refl, i.cleaned refl)

  if-writes :
      (P : Write → Type 0) (t : Bool) (x y : PassEnded)
      → All P x.writes
      → All P y.writes
      → All P (if t then x else y).writes
  if-writes P true x y h k = h
  if-writes P false x y h k = k

  -- The deletion of a build asks for nothing but the removal of the image that the build pushed to a
  -- cluster registry, never of one in an external registry, and the removal of the finalizer, and
  -- that only where no image is left to delete: the build pushed to an external registry or pushed
  -- nothing, its cluster registry is gone, or its image was deleted with the credentials of that
  -- registry.
  pub finalize-IsFinalWrite : All IsFinalWrite (finalize calls b).writes
  unfolding finalize
  finalize-IsFinalWrite =
      if-writes IsFinalWrite (not (has_finalizer b)) _ _ tt
        (after_cleanup-IsFinalWrite (cleanup_image calls b) cleanup_image-IsCleanup)

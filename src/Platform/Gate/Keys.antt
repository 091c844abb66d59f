-- ===== src/Platform/Gate/Keys.antt =====
-- The counters' keys do not collide.
use Prim.Native.String.{◌++◌, count}
use dhund_research_ai.Base.{◌≡◌, ◌≢◌, refl, sym, ◌∙◌, false, String, str_eq, eq_iff}
use text.Mathlib.TextLemmas.{append_inj, append_assoc}
use dhund_research_ai.Platform.Gate.{
  build_org_batch_counter_key, build_global_batch_counter_key, build_org_upload_counter_key,
  build_embed_backfill_global_counter_key, build_ocr_pool_counter_key,
}

-- Texts that begin with different prefixes of one length differ.
prefixes_ne : (p q s t : String) → count p ≡ count q → str_eq p q ≡ false → p ++ s ≢ q ++ t
prefixes_ne p q s t same differ e = let heads = (append_inj e same).0 in cc ((eq_iff p q).1 heads)

pub org-ne-global : (o : String) → build_org_batch_counter_key o ≢ build_global_batch_counter_key
unfolding build_org_batch_counter_key build_global_batch_counter_key
org-ne-global o = prefixes_ne "gate:batch:org:" "gate:batch:glob" o "al" refl refl

pub org-ne-ocr : (o : String) → build_org_batch_counter_key o ≢ build_ocr_pool_counter_key
unfolding build_org_batch_counter_key build_ocr_pool_counter_key
org-ne-ocr o = prefixes_ne "gate:batch:org:" "gate:ocr:global" o "" refl refl

pub org-ne-embed :
    (o : String) → build_org_batch_counter_key o ≢ build_embed_backfill_global_counter_key
unfolding build_org_batch_counter_key build_embed_backfill_global_counter_key
org-ne-embed o = prefixes_ne "gate:batch:org:" "gate:embed-back" o "fill:global" refl refl

pub upload-ne-global :
    (o : String) → build_org_upload_counter_key o ≢ build_global_batch_counter_key
unfolding build_org_upload_counter_key build_global_batch_counter_key
upload-ne-global o = prefixes_ne "gate:upload:org:" "gate:batch:globa" o "l" refl refl

pub upload-ne-embed :
    (o : String) → build_org_upload_counter_key o ≢ build_embed_backfill_global_counter_key
unfolding build_org_upload_counter_key build_embed_backfill_global_counter_key
upload-ne-embed o = prefixes_ne "gate:upload:org:" "gate:embed-backf" o "ill:global" refl refl

pub upload-ne-ocr : (o : String) → build_org_upload_counter_key o ≢ build_ocr_pool_counter_key
unfolding build_org_upload_counter_key build_ocr_pool_counter_key
upload-ne-ocr o e =
    prefixes_ne "gate:upload:org" "gate:ocr:global" (":" ++ o) "" refl refl
      (sym (append_assoc "gate:upload:org" ":" o) ∙ e)

pub org-ne-upload : (o p : String) → build_org_batch_counter_key o ≢ build_org_upload_counter_key p
unfolding build_org_batch_counter_key build_org_upload_counter_key
org-ne-upload o p e =
    prefixes_ne "gate:batch:org:" "gate:upload:org" o (":" ++ p) refl refl
      (e ∙ append_assoc "gate:upload:org" ":" p)

pub global-ne-ocr : build_global_batch_counter_key ≢ build_ocr_pool_counter_key
unfolding build_global_batch_counter_key build_ocr_pool_counter_key
global-ne-ocr e = cc ((eq_iff _ _).1 e)

pub global-ne-embed : build_global_batch_counter_key ≢ build_embed_backfill_global_counter_key
unfolding build_global_batch_counter_key build_embed_backfill_global_counter_key
global-ne-embed e = cc ((eq_iff _ _).1 e)

pub ocr-ne-embed : build_ocr_pool_counter_key ≢ build_embed_backfill_global_counter_key
unfolding build_ocr_pool_counter_key build_embed_backfill_global_counter_key
ocr-ne-embed e = cc ((eq_iff _ _).1 e)

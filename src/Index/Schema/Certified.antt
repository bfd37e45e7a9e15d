-- ===== src/Index/Schema/Certified.antt =====
-- pkg/index/schema.go: certification decisions and the catalog that is made of them.
use node_vault.Base.{Time, String, List, Bool, true, false}

pub data PromotionStatus : Type 0 where
  unset active superseded retracted : PromotionStatus

pub record CertifiedToolImageRecord : Type 0 where
  pub image_digest : String
  pub tool_spec_digest : String
  pub platform : String
  pub tool_name : String
  pub version : String
  pub cas_hash : String
  pub promotion_status : PromotionStatus
  pub certified_at : Time
  pub check_id : String
  pub scan_id : String

pub record ToolFunctionCatalogEntry : Type 0 where
  pub cas_hash : String
  pub tool_name : String
  pub version : String
  pub stable_ref : String
  pub image_digest : String
  pub image_ref : String
  pub display_label : String
  pub display_description : String
  pub display_category : String
  pub display_tags : List String
  pub promotion_status : PromotionStatus
  pub certified_at : Time
  pub validation_hash : String

abbrev pub promotion_eq : PromotionStatus → PromotionStatus → Bool
promotion_eq PromotionStatus.unset PromotionStatus.unset = true
promotion_eq PromotionStatus.active PromotionStatus.active = true
promotion_eq PromotionStatus.superseded PromotionStatus.superseded = true
promotion_eq PromotionStatus.retracted PromotionStatus.retracted = true
promotion_eq _ _ = false

-- `status == "" || x.PromotionStatus == status`, the filter of the listings.
abbrev pub promotion_filter : PromotionStatus → PromotionStatus → Bool
promotion_filter PromotionStatus.unset p = true
promotion_filter PromotionStatus.active p = promotion_eq p PromotionStatus.active
promotion_filter PromotionStatus.superseded p = promotion_eq p PromotionStatus.superseded
promotion_filter PromotionStatus.retracted p = promotion_eq p PromotionStatus.retracted

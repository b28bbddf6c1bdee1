-- ===== src/Split/Types.antt =====
-- The data of tools/splitMsigBatchesLib.ts.
use nest_protocol.Base.{[], ◌∷◌, ◌++◌, ℕ, Bool, Option, List}
use nest_protocol.Base.Text.{Text}

-- The field `data` of the source is `call_data`.
pub record SafeTx : Type 0 where
  pub to : Text
  pub value : Text
  pub call_data : Text
  pub operation : Text

-- `chainId: number | string`
pub data ChainId : Type 0 where
  number : ℕ → ChainId
  string : Text → ChainId

pub record SafeBatch : Type 0 where
  pub chain_id : ChainId
  pub created_at : ℕ
  pub meta_name : Text
  pub meta_description : Text
  pub transactions : List SafeTx
  pub version : Text

pub data Slot : Type 0 where
  slot_1a slot_1b slot_2a slot_2b slot_3 slot_4 : Slot

pub record SplitSection : Type 0 where
  pub slot : Slot
  pub file : Text
  pub title : Text
  pub batch : SafeBatch

-- The transactions of some sections, in their order.
abbrev pub all_txs : List SplitSection → List SafeTx
all_txs [] = []
all_txs (s ∷ ss) = s.batch.transactions ++ all_txs ss

pub record SplitResult : Type 0 where
  pub out_dir : Text
  pub sections : List SplitSection
  pub eids_label : Text
  pub has_upgrade : Bool

-- The batch files that exist, already read: `none` is a missing file, or no path for it.
pub record SplitOptions : Type 0 where
  pub deploy_file : Option SafeBatch
  pub owner_file : Option SafeBatch
  pub upgrade_file : Option SafeBatch
  pub fees_file : Option SafeBatch
  pub chain_id : ℕ
  pub vault : Text
  pub out_dir : Text

-- The output directory: names with what they hold.
pub data Content : Type 0 where
  json : SafeBatch → Content
  bytes : Text → Content

abbrev pub Directory : Type 0
Directory = List (Text × Content)

pub data SplitError : Type 0 where
  chain_mismatch : SplitError
  upgrade_chain_mismatch : SplitError
  fees_chain_mismatch : SplitError
  unknown_selectors : List ℕ → SplitError
  unclassified_lz_selector : Text → SplitError
  count_mismatch : SplitError

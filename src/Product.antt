-- ===== src/Product.antt =====
-- The product table: Product_Information of app/src/main/cpp/include/csioCommonShare.h, and the table
-- and setup_product_info of app/src/main/cpp/csioMock.cpp, with the call of
-- app/src/main/cpp/streamout.cpp that selects a product. The rest of csioMock.cpp is stubs. A `char`
-- array is the text before its zeros.
pub mod Table
pub mod Selection
use my_stream_out_app.Base.{
  ℕ, suc, Bool, ◌||◌, Option, none, some, List, [], ◌∷◌, ◌==◌, if◌then◌else◌,
}
use my_stream_out_app.Base.Int.{ℤ, to_unsigned}
use my_stream_out_app.Base.Text.{Text}

pub data HardwarePlatform : Type 0 where
  imx53 imx6 omap5 arria10 amlogic snapdragon rockchip snapdragon_tst1080 : HardwarePlatform
  qualcomm qualcomm_tsx80 : HardwarePlatform

pub data PauseCapability : Type 0 where
  no_pause_support pause_pipeline pause_with_valves pause_last : PauseCapability

pub record SlotConversionUnit : Type 0 where
  pub platform_num : ℕ
  pub csio_num : ℕ

pub record VideoCodecConfig : Type 0 where
  pub width : ℤ
  pub height : ℤ
  pub min_percent_fs : ℤ

pub record ProductInformation : Type 0 where
  pub product_type : ℕ
  pub iplink_reserve_join_number : ℕ
  pub iplink_tcp_port : ℕ
  pub hw_platform : HardwarePlatform
  pub smart_graphics_bitmask : ℕ
  pub gstreamer_bitmask : ℕ
  pub stream_statistics_bitmask : ℕ
  pub stream_display_bitmask : ℕ
  pub display_check_hdcp_bitmask : ℕ
  pub pause_capability : PauseCapability
  pub stop_on_messagepage : Bool
  pub maximum_video_windows : ℕ
  pub maximum_local_video_windows : ℕ
  pub maximum_stream_id : ℕ
  pub maximum_txrx_id : ℤ
  pub join_response_slots_digital : List ℕ
  pub join_response_slots_analog : List ℕ
  pub join_response_slots_serial : List ℕ
  pub should_translate_slots : Bool
  pub slot_translation_map : List SlotConversionUnit
  pub dm_input_cnt : ℕ
  pub process_hdmi_in_audio : Bool
  pub h264_decoder_string : Text
  pub mjpeg_decoder_string : Text
  pub h264_encoder_string : Text
  pub h265_decoder_string : Text
  pub proxy_support : Bool
  pub dcp_mode : ℕ
  pub output_audio_samplerate : ℕ
  pub chroma_key_used : ℕ
  pub hide_video_on_stop : Bool
  pub has_automatic_initiation_mode : Bool
  pub does_product_have_dsp : Bool
  pub does_product_have_external_hdmi : Bool
  pub number_ethernet_adapters : ℕ
  pub primary_ethernet_adapter : ℕ
  pub map_settings_to_sdcard : Bool
  pub restart_streams_on_start : Bool
  pub does_product_have_miracast : Bool
  pub video_codec_cfg : List VideoCodecConfig
  pub air_media_enabled : Bool
  pub product_has_hdmi_output : Bool
  pub does_4k_air_media_decode : Bool

-- The loop's condition fails: the default entry, whose type is 0, or the entry of the product. The
-- 32 bits of the type are widened for the comparison.
abbrev pub stops : ℕ → ProductInformation → Bool
stops product_id p = p.product_type == 0 || p.product_type == product_id

-- How far `prod_info` gets from the start of a table; `none` is a read beyond its end.
unfoldable pub setup_product_info : ℕ → List ProductInformation → Option ℕ
setup_product_info product_id [] = none
setup_product_info product_id (p ∷ table) =
    let rest = setup_product_info product_id table in
    if stops product_id p then some 0 else elim rest [ none ↦ none | some i ↦ some (suc i) ]

-- nativeSetProductID: a `jint` is widened to 64 bits with its sign.
unfoldable pub native_set_product_id : ℤ → List ProductInformation → Option ℕ
native_set_product_id id table = setup_product_info (to_unsigned 64 id) table

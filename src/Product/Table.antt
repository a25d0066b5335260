-- ===== src/Product/Table.antt =====
-- Product_Information_Table of app/src/main/cpp/csioMock.cpp, and product_info, which reads it.
use my_stream_out_app.Base.{ℕ, zero, suc, true, false, List, [], ◌∷◌}
use my_stream_out_app.Base.Int.{pos}
use my_stream_out_app.Base.Text.{codes}
use my_stream_out_app.Product.{
  qualcomm_tsx80, amlogic, pause_with_valves, SlotConversionUnit, VideoCodecConfig,
  ProductInformation,
}

abbrev pub system_tsx80 : ℕ
system_tsx80 = 0x6F00

-- An initialiser of an array gives its first entry, and the others are zero.
abbrev zeros : ℕ → List ℕ
zeros zero = []
zeros (suc n) = 0 ∷ zeros n

abbrev no_slots : List ℕ
no_slots = 0x200 ∷ zeros 14

abbrev no_conversions : ℕ → List SlotConversionUnit
no_conversions zero = []
no_conversions (suc n) = record { platform_num = 0; csio_num = 0 } ∷ no_conversions n

abbrev limits_4k : VideoCodecConfig
limits_4k = record { width = pos 4096; height = pos 2160; min_percent_fs = pos 0 }

abbrev pub tsx80 : ProductInformation
tsx80 = record {
  product_type = system_tsx80;
  iplink_reserve_join_number = 32002;
  iplink_tcp_port = 49306;
  hw_platform = qualcomm_tsx80;
  smart_graphics_bitmask = 0x05;
  gstreamer_bitmask = 0x0020;
  stream_statistics_bitmask = 0x03;
  stream_display_bitmask = 0x00000001;
  display_check_hdcp_bitmask = 0x00000000;
  pause_capability = pause_with_valves;
  stop_on_messagepage = true;
  maximum_video_windows = 4;
  maximum_local_video_windows = 4;
  maximum_stream_id = 3;
  maximum_txrx_id = pos 3;
  join_response_slots_digital = no_slots;
  join_response_slots_analog = no_slots;
  join_response_slots_serial = no_slots;
  should_translate_slots = false;
  slot_translation_map = no_conversions 15;
  dm_input_cnt = 0;
  process_hdmi_in_audio = true;
  h264_decoder_string = codes "amcviddec-omxqcomvideodecoderavc";
  mjpeg_decoder_string = [];
  h264_encoder_string = codes "amcvidenc-omxqcomvideoencoderavc";
  h265_decoder_string = codes "amcviddec-omxqcomvideodecoderhevc";
  proxy_support = false;
  dcp_mode = 0;
  output_audio_samplerate = 48000;
  chroma_key_used = 0;
  hide_video_on_stop = false;
  has_automatic_initiation_mode = false;
  does_product_have_dsp = false;
  does_product_have_external_hdmi = false;
  number_ethernet_adapters = 1;
  primary_ethernet_adapter = 0;
  map_settings_to_sdcard = false;
  restart_streams_on_start = false;
  does_product_have_miracast = false;
  video_codec_cfg = limits_4k ∷ limits_4k ∷ limits_4k ∷ limits_4k ∷ [];
  air_media_enabled = false;
  product_has_hdmi_output = false;
  does_4k_air_media_decode = true;
}

abbrev pub default_product : ProductInformation
default_product = record {
  product_type = 0;
  iplink_reserve_join_number = 32002;
  iplink_tcp_port = 49306;
  hw_platform = amlogic;
  smart_graphics_bitmask = 0x05;
  gstreamer_bitmask = 0x0020;
  stream_statistics_bitmask = 0x03;
  stream_display_bitmask = 0x00000001;
  display_check_hdcp_bitmask = 0x00000000;
  pause_capability = pause_with_valves;
  stop_on_messagepage = true;
  maximum_video_windows = 4;
  maximum_local_video_windows = 4;
  maximum_stream_id = 3;
  maximum_txrx_id = pos 3;
  join_response_slots_digital = no_slots;
  join_response_slots_analog = no_slots;
  join_response_slots_serial = no_slots;
  should_translate_slots = false;
  slot_translation_map = no_conversions 15;
  dm_input_cnt = 0;
  process_hdmi_in_audio = true;
  h264_decoder_string = codes "xxx need to fill this in based on media_codecs.xml";
  mjpeg_decoder_string = codes "xxx need to fill this in based on media_codecs.xml";
  h264_encoder_string = codes "xxx need to fill this in based on media_codecs.xml";
  h265_decoder_string = codes "xxx need to fill this in based on media_codecs.xml";
  proxy_support = false;
  dcp_mode = 0;
  output_audio_samplerate = 48000;
  chroma_key_used = 1;
  hide_video_on_stop = false;
  has_automatic_initiation_mode = false;
  does_product_have_dsp = false;
  does_product_have_external_hdmi = false;
  number_ethernet_adapters = 1;
  primary_ethernet_adapter = 0;
  map_settings_to_sdcard = false;
  restart_streams_on_start = false;
  does_product_have_miracast = false;
  video_codec_cfg = limits_4k ∷ limits_4k ∷ limits_4k ∷ limits_4k ∷ [];
  air_media_enabled = false;
  product_has_hdmi_output = false;
  does_4k_air_media_decode = false;
}

abbrev pub product_information_table : List ProductInformation
product_information_table = tsx80 ∷ default_product ∷ []

-- product_info: `&Product_Information_Table[0]`
unfoldable pub product_info : ProductInformation
product_info = tsx80

-- ===== src/Entity/Code.antt =====
-- Codes of include/ptp_datacodes.h that the entities and the command handler use.
use cmtp_responder.Base.{ℕ}

abbrev pub handle_all : ℕ
handle_all = 0xFFFFFFFF

abbrev pub handle_root : ℕ
handle_root = 0

abbrev pub format_notused : ℕ
format_notused = 0

abbrev pub format_all : ℕ
format_all = 0xFFFFFFFF

abbrev pub fmt_association : ℕ
fmt_association = 0x3001

abbrev pub association_folder : ℕ
association_folder = 1

abbrev pub response_undefined : ℕ
response_undefined = 0x2000

abbrev pub response_ok : ℕ
response_ok = 0x2001

abbrev pub response_gen_error : ℕ
response_gen_error = 0x2002

abbrev pub response_writeprotected : ℕ
response_writeprotected = 0x200D

abbrev pub response_store_readonly : ℕ
response_store_readonly = 0x200E

abbrev pub response_accessdenied : ℕ
response_accessdenied = 0x200F

abbrev pub response_partial_deletion : ℕ
response_partial_deletion = 0x2012

abbrev pub access_r : ℕ
access_r = 1

abbrev pub protection_none : ℕ
protection_none = 0

abbrev pub protection_readonly : ℕ
protection_readonly = 1

abbrev pub protection_readonly_data : ℕ
protection_readonly_data = 0x8002

abbrev pub response_invalid_obj_handle : ℕ
response_invalid_obj_handle = 0x2009

abbrev pub response_sessionnotopen : ℕ
response_sessionnotopen = 0x2003

abbrev pub response_op_not_supported : ℕ
response_op_not_supported = 0x2005

abbrev pub response_param_notsupported : ℕ
response_param_notsupported = 0x2006

abbrev pub response_incompletetransfer : ℕ
response_incompletetransfer = 0x2007

abbrev pub response_invalid_store_id : ℕ
response_invalid_store_id = 0x2008

abbrev pub response_prop_notsupported : ℕ
response_prop_notsupported = 0x200A

abbrev pub response_invalid_obj_fmtcode : ℕ
response_invalid_obj_fmtcode = 0x200B

abbrev pub response_storefull : ℕ
response_storefull = 0x200C

abbrev pub response_storenotavailable : ℕ
response_storenotavailable = 0x2013

abbrev pub response_novalid_objinfo : ℕ
response_novalid_objinfo = 0x2015

abbrev pub response_invalidcodeformat : ℕ
response_invalidcodeformat = 0x2016

abbrev pub response_invalidparent : ℕ
response_invalidparent = 0x201A

abbrev pub response_invalidpropvalue : ℕ
response_invalidpropvalue = 0x201C

abbrev pub response_invalidparam : ℕ
response_invalidparam = 0x201D

abbrev pub response_sessionalreadyopened : ℕ
response_sessionalreadyopened = 0x201E

abbrev pub response_invaliddataset : ℕ
response_invaliddataset = 0xA806

abbrev pub storageid_all : ℕ
storageid_all = 0xFFFFFFFF

abbrev pub fmt_undef : ℕ
fmt_undef = 0x3000

abbrev pub eventcode_canceltransaction : ℕ
eventcode_canceltransaction = 0x4001

abbrev pub opcode_getdeviceinfo : ℕ
opcode_getdeviceinfo = 0x1001

abbrev pub opcode_opensession : ℕ
opcode_opensession = 0x1002

abbrev pub opcode_closesession : ℕ
opcode_closesession = 0x1003

abbrev pub opcode_getstorageids : ℕ
opcode_getstorageids = 0x1004

abbrev pub opcode_getstorageinfo : ℕ
opcode_getstorageinfo = 0x1005

abbrev pub opcode_getobjecthandles : ℕ
opcode_getobjecthandles = 0x1007

abbrev pub opcode_getobjectinfo : ℕ
opcode_getobjectinfo = 0x1008

abbrev pub opcode_getobject : ℕ
opcode_getobject = 0x1009

abbrev pub opcode_deleteobject : ℕ
opcode_deleteobject = 0x100B

abbrev pub opcode_sendobjectinfo : ℕ
opcode_sendobjectinfo = 0x100C

abbrev pub opcode_sendobject : ℕ
opcode_sendobject = 0x100D

abbrev pub opcode_resetdevice : ℕ
opcode_resetdevice = 0x1010

abbrev pub opcode_powerdown : ℕ
opcode_powerdown = 0x1013

abbrev pub opcode_getpartialobject : ℕ
opcode_getpartialobject = 0x101B

abbrev pub opcode_vendor_op1 : ℕ
opcode_vendor_op1 = 0x9001

abbrev pub opcode_getobjectpropdesc : ℕ
opcode_getobjectpropdesc = 0x9802

abbrev pub opcode_setobjectpropvalue : ℕ
opcode_setobjectpropvalue = 0x9804

abbrev pub opcode_getinterdeppropdesc : ℕ
opcode_getinterdeppropdesc = 0x9807

abbrev pub opcode_android_getpartialobject : ℕ
opcode_android_getpartialobject = 0x95C1

abbrev pub opcode_android_sendpartialobject : ℕ
opcode_android_sendpartialobject = 0x95C2

abbrev pub opcode_android_begineditobject : ℕ
opcode_android_begineditobject = 0x95C4

abbrev pub opcode_android_endeditobject : ℕ
opcode_android_endeditobject = 0x95C5

abbrev pub eventcode_devicereset : ℕ
eventcode_devicereset = 0x400B
